-- ===== src/Customers.antt =====
-- The customers of a merchant: src/customers/customers.service.ts.
use subscription_billing_eng.Prelude.{
  Bool, String, Option, none, some, ◌∷◌, ◌&&◌, str_eq, or_else, or_option,
}
use subscription_billing_eng.Prelude.Table.{find}
use subscription_billing_eng.Entities.{Customer, AuditAction, AuditLog}
use subscription_billing_eng.World.{
  World, Action, Error, ok, pure, or_throw, modify, ◌>>=◌, ◌>>◌, save_customer, next_id, draw,
}
use subscription_billing_eng.Events.{log}

pub record CreateCustomerDto : Type 0 where
  pub name : String
  pub email : String
  pub phone : Option String

-- `PartialType(CreateCustomerDto)`.
pub record UpdateCustomerDto : Type 0 where
  pub name : Option String
  pub email : Option String
  pub phone : Option String

-- `where: { id, merchantId }`.
abbrev pub is_customer : String → String → Customer → Bool
is_customer m id c = str_eq c.id id && str_eq c.merchant_id m

-- `findOne`.
unfoldable pub find_customer : String → String → Action Customer
find_customer m id w =
    or_throw (find (is_customer m id) w.customers) (Error.not_found "Customer not found") w

abbrev customer_log : String → String → AuditAction → String → AuditLog
customer_log m actor action id = record {
  merchant_id = m;
  actor = actor;
  action = action;
  resource_type = "customer";
  resource_id = some id;
}

abbrev new_customer : String → CreateCustomerDto → World → Customer
new_customer m dto w = record {
  id = next_id w;
  merchant_id = m;
  name = dto.name;
  email = dto.email;
  phone = dto.phone;
  monnify_card_token = none;
  created_at = w.now;
}

insert_customer : Customer → World → World
insert_customer c w = draw (record w { customers = c ∷ w.customers })

-- A customer of the same merchant and address is answered as it is.
unfoldable pub create_customer : String → CreateCustomerDto → String → Action Customer
unfolding insert_customer
create_customer m dto actor w =
    elim (find (λ c. str_eq c.merchant_id m && str_eq c.email dto.email) w.customers) [
      | some existing ↦ (ok existing, w)
      | none ↦
          let c = new_customer m dto w in
          (ok c, log (customer_log m actor AuditAction.create c.id) (insert_customer c w))
    ]

-- `saveMonnifyCardToken`.
unfoldable pub save_monnify_card_token : String → String → String → Action Customer
unfolding find_customer
save_monnify_card_token m id token = do
  c ← find_customer m id
  let updated = record c { monnify_card_token = some token }
  modify (save_customer updated)
  pure updated

-- `Object.assign(customer, dto)`: a field that is present is copied.
abbrev assign : Customer → UpdateCustomerDto → Customer
assign c dto = record c {
  name = or_else dto.name c.name;
  email = or_else dto.email c.email;
  phone = or_option dto.phone c.phone;
}

unfoldable pub update_customer : String → String → UpdateCustomerDto → String → Action Customer
unfolding find_customer
update_customer m id dto actor = do
  c ← find_customer m id
  let updated = assign c dto
  modify (save_customer updated)
  modify (log (customer_log m actor AuditAction.update id))
  pure updated
