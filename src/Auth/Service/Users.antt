-- ===== src/Auth/Service/Users.antt =====
-- The users, the tokens and the rows of src/auth/auth.service.ts.
use subscription_billing_eng.Prelude.{
  ℕ, ◌+◌, Bool, false, String, Option, none, some, List, [], ◌∷◌, ◌&&◌, not, str_eq, ltb,
  if◌then◌else◌,
}
use subscription_billing_eng.Prelude.Table.{find, save}
use subscription_billing_eng.Entities.{User, Merchant, AuditAction, AuditLog}
use subscription_billing_eng.World.{World, Action, Error, ok, err, draw}

-- What a token says.
pub record JwtPayload : Type 0 where
  pub sub : String
  pub email : String
  pub merchant_id : String

-- The libraries: `bcrypt`, whose hash has a salt; SHA-256; and the tokens, signed with a secret and an
-- expiry at a time, and verified with a secret at a time (`none` where `verify` throws).
pub record Libraries : Type 0 where
  pub bcrypt_hash : String → ℕ → String
  pub bcrypt_compare : String → String → Bool
  pub hash_value : String → String
  pub sign : JwtPayload → String → String → ℕ → String
  pub verify : String → String → ℕ → Option JwtPayload

pub record SignupDto : Type 0 where
  pub business_name : String
  pub email : String
  pub password : String
  pub first_name : Option String
  pub last_name : Option String
  pub phone : Option String

pub record AuthTokens : Type 0 where
  pub access_token : String
  pub refresh_token : String
  pub expires_in : String

pub record UserView : Type 0 where
  pub id : String
  pub email : String
  pub merchant_id : String
  pub first_name : Option String
  pub last_name : Option String

pub record AuthResponse : Type 0 where
  pub user : UserView
  pub tokens : AuthTokens

abbrev pub has_email : String → User → Bool
has_email email u = str_eq u.email email

-- `where: { email, isActive: true }`.
abbrev pub is_active_login : String → User → Bool
is_active_login email u = str_eq u.email email && u.is_active

-- `where: { id, isActive: true }`.
abbrev pub is_active_user : String → User → Bool
is_active_user id u = str_eq u.id id && u.is_active

-- `where: { passwordResetTokenHash }`.
abbrev pub has_reset_hash : String → User → Bool
has_reset_hash digest u = elim u.password_reset_token_hash [
  | none ↦ false
  | some x ↦ str_eq x digest
]

unfoldable pub find_user : (User → Bool) → World → Option User
unfolding find
find_user p w = find p w.users

unfoldable pub save_user : User → World → World
unfolding save
save_user u w = record w { users = save (λ x. x.id) u w.users }

-- The merchant of a signup: the secret of its webhooks is drawn first, then the identifier.
abbrev pub new_merchant : SignupDto → World → Merchant
new_merchant dto w = record {
  id = w.uuid (w.draws + 1);
  business_name = dto.business_name;
  email = dto.email;
  phone = dto.phone;
  branding_name = none;
  customer_portal_settings = none;
  webhook_url = none;
  bank_code = none;
  bank_name = none;
  bank_account_number = none;
  bank_account_name = none;
  webhook_secret = some (w.random_token w.draws);
}

-- The address of a merchant is unique, so the insert throws where it is taken.
unfoldable pub insert_merchant : SignupDto → Action Merchant
unfolding find
insert_merchant dto w = elim (find (λ m. str_eq m.email dto.email) w.merchants) [
  | some _ ↦ (err (Error.failure "duplicate key value violates unique constraint"), draw w)
  | none ↦ (
    ok (new_merchant dto w),
    draw (draw (record w { merchants = new_merchant dto w ∷ w.merchants })),
  )
]

abbrev pub user_view : User → UserView
user_view u = record {
  id = u.id;
  email = u.email;
  merchant_id = u.merchant_id;
  first_name = u.first_name;
  last_name = u.last_name;
}

-- `buildAuthResponse`.
abbrev pub build_auth_response : User → AuthTokens → AuthResponse
build_auth_response u tokens = record { user = user_view u; tokens = tokens }

abbrev pub auth_log : String → String → AuditAction → String → String → AuditLog
auth_log m actor action resource id = record {
  merchant_id = m;
  actor = actor;
  action = action;
  resource_type = resource;
  resource_id = some id;
}

abbrev pub payload_of : User → JwtPayload
payload_of u = record { sub = u.id; email = u.email; merchant_id = u.merchant_id }

unfoldable pub set_refresh_hash : String → String → List User → List User
set_refresh_hash id digest [] = []
set_refresh_hash id digest (u ∷ us) =
    let rest = set_refresh_hash id digest us in
    (if str_eq u.id id then record u { refresh_token_hash = some digest } else u) ∷ rest

abbrev pub invalid_refresh_token : Error
invalid_refresh_token = Error.unauthorized "Invalid refresh token"

-- An hour.
abbrev pub reset_ttl_ms : ℕ
reset_ttl_ms = 3600000

-- Whether the reset of a user has not expired.
unfoldable pub is_reset_open : ℕ → User → Bool
is_reset_open now u = elim u.password_reset_token_expires_at [
  | none ↦ false
  | some t ↦ not (ltb t now)
]
