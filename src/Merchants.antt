-- ===== src/Merchants.antt =====
-- src/merchants/merchants.service.ts. A key that the request leaves out is `none`.
use subscription_billing_eng.Prelude.{String, Option, or_else, or_option}
use subscription_billing_eng.Prelude.Table.{save}
use subscription_billing_eng.Entities.{Merchant}
use subscription_billing_eng.Entities.Json.{Json}
use subscription_billing_eng.World.{World, Action, Error, or_throw, pure, modify, ◌>>=◌, ◌>>◌}
use subscription_billing_eng.Portal.Sessions.{merchant_by_id}

pub record UpdateMerchantDto : Type 0 where
  pub business_name : Option String
  pub phone : Option String
  pub branding_name : Option (Option String)
  pub webhook_url : Option String
  pub bank_code : Option String
  pub bank_name : Option String
  pub bank_account_number : Option String
  pub bank_account_name : Option String
  pub customer_portal_settings : Option Json

-- `findOne`.
unfoldable pub find_merchant : String → Action Merchant
unfolding merchant_by_id
find_merchant id w = or_throw (merchant_by_id id w) (Error.not_found "Merchant not found") w

-- The assignments of `update`; of the branding, the name is kept that the portal shows.
abbrev pub assign : UpdateMerchantDto → Merchant → Merchant
assign dto m = record m {
  business_name = or_else dto.business_name m.business_name;
  phone = or_option dto.phone m.phone;
  branding_name = or_else dto.branding_name m.branding_name;
  webhook_url = or_option dto.webhook_url m.webhook_url;
  bank_code = or_option dto.bank_code m.bank_code;
  bank_name = or_option dto.bank_name m.bank_name;
  bank_account_number = or_option dto.bank_account_number m.bank_account_number;
  bank_account_name = or_option dto.bank_account_name m.bank_account_name;
  customer_portal_settings = or_option dto.customer_portal_settings m.customer_portal_settings;
}

unfoldable pub save_merchant : Merchant → World → World
unfolding save
save_merchant m w = record w { merchants = save (λ x. x.id) m w.merchants }

-- `update`.
unfoldable pub update_merchant : String → UpdateMerchantDto → Action Merchant
unfolding find_merchant save_merchant
update_merchant id dto = do
  m ← find_merchant id
  modify (save_merchant (assign dto m))
  pure (assign dto m)
