-- ===== src/Auth/Service.antt =====
-- src/auth/auth.service.ts and src/auth/strategies/jwt.strategy.ts. What an e-mail says is left out.
mod Users
unfoldable pub use Users.*
use subscription_billing_eng.Prelude.{
  ℕ, ◌+◌, Bool, true, false, String, Option, none, some, List, [], ◌∷◌, ◌&&◌, not, str_eq, truthy,
  ltb, if◌then◌else◌,
}
use subscription_billing_eng.Prelude.Table.{find, save}
use subscription_billing_eng.Entities.{User, Merchant, AuditAction, AuditLog}
use subscription_billing_eng.World.{
  World, Action, Error, ok, err, pure, gets, throw_if, or_throw, modify, ◌>>=◌, ◌>>◌, draw,
}
use subscription_billing_eng.Events.{log}
use subscription_billing_eng.Mail.Service.{send_template}

module _ (libraries : Libraries) where
  -- The user of a signup.
  abbrev pub new_user : SignupDto → String → World → User
  new_user dto m w = record {
    id = w.uuid (w.draws + 1);
    merchant_id = m;
    email = dto.email;
    password_hash = libraries.bcrypt_hash dto.password w.draws;
    first_name = dto.first_name;
    last_name = dto.last_name;
    refresh_token_hash = none;
    password_reset_token_hash = none;
    password_reset_token_expires_at = none;
    is_active = true;
  }

  unfoldable pub insert_user : SignupDto → String → Action User
  insert_user dto m w =
      (ok (new_user dto m w), draw (draw (record w { users = new_user dto m w ∷ w.users })))

  -- `generateTokens`.
  unfoldable pub generate_tokens : User → World → AuthTokens
  generate_tokens u w = record {
    access_token =
        libraries.sign (payload_of u) w.config.jwt_access_secret w.config.jwt_access_expiry w.now;
    refresh_token =
        libraries.sign (payload_of u) w.config.jwt_refresh_secret w.config.jwt_refresh_expiry w.now;
    expires_in = w.config.jwt_access_expiry;
  }

  -- `storeRefreshToken`.
  unfoldable pub store_refresh_token : String → String → World → World
  unfolding set_refresh_hash
  store_refresh_token id token w = record w {
    users = set_refresh_hash id (libraries.hash_value token) w.users;
  }

  -- The end of a signup, a login or a refresh: new tokens, the last of which is kept as a digest.
  unfoldable pub open_tokens : User → Action AuthTokens
  unfolding generate_tokens store_refresh_token
  open_tokens u w =
      let tokens = generate_tokens u w in
      (ok tokens, store_refresh_token u.id tokens.refresh_token w)

  -- `signup`.
  unfoldable pub signup : SignupDto → Action AuthResponse
  unfolding find_user insert_merchant insert_user open_tokens log send_template
  signup dto = do
    existing ← gets (find_user (has_email dto.email))
    throw_if (elim existing [ none ↦ false | some _ ↦ true ])
        (Error.conflict "Email already registered")
    merchant ← insert_merchant dto
    user ← insert_user dto merchant.id
    tokens ← open_tokens user
    modify (log (auth_log merchant.id user.email AuditAction.create "merchant" merchant.id))
    modify (send_template merchant.email "emails/welcome-merchant" none "Welcome to Subflow!")
    pure (build_auth_response user tokens)

  -- `login`.
  unfoldable pub login : String → String → Action AuthResponse
  unfolding find_user open_tokens log
  login email password = do
    found ← gets (find_user (is_active_login email))
    user ← or_throw found (Error.unauthorized "Invalid credentials")
    throw_if (not (libraries.bcrypt_compare password user.password_hash))
        (Error.unauthorized "Invalid credentials")
    tokens ← open_tokens user
    modify (log (auth_log user.merchant_id user.email AuditAction.login "user" user.id))
    pure (build_auth_response user tokens)

  -- `!user?.refreshTokenHash`, and then the comparison of the digests.
  unfoldable pub holds_token : String → User → Bool
  holds_token token u = elim u.refresh_token_hash [
    | none ↦ false
    | some digest ↦ truthy (some digest) && str_eq digest (libraries.hash_value token)
  ]

  -- `refresh`.
  unfoldable pub refresh : String → Action AuthResponse
  unfolding find_user holds_token open_tokens
  refresh token = do
    verified ← gets (λ w. libraries.verify token w.config.jwt_refresh_secret w.now)
    payload ← or_throw verified invalid_refresh_token
    found ← gets (find_user (is_active_user payload.sub))
    user ← or_throw found invalid_refresh_token
    throw_if (not (holds_token token user)) invalid_refresh_token
    tokens ← open_tokens user
    pure (build_auth_response user tokens)

  -- `requestPasswordReset`: the token is drawn, and its digest kept, before the address of the page is
  -- made of the dashboard's, which throws where that is not configured.
  unfoldable pub request_password_reset : String → Action (Unit {0})
  unfolding find_user save_user send_template
  request_password_reset email w = elim (find_user (has_email email) w) [
    | none ↦ (ok tt, w)
    | some u ↦
        let token = w.random_token w.draws in
        let w' =
          save_user
            (record u {
              password_reset_token_hash = some (libraries.hash_value token);
              password_reset_token_expires_at = some (w.now + reset_ttl_ms);
            })
            (draw w) in
        elim w.config.dashboard_url [
          | none ↦ (err Error.type_error, w')
          | some _ ↦
              (ok tt, send_template u.email "emails/password-reset" none "Reset your password" w')
        ]
  ]

  -- The user after a reset.
  abbrev pub reset_user : String → User → World → User
  reset_user password u w = record u {
    password_hash = libraries.bcrypt_hash password w.draws;
    password_reset_token_hash = none;
    password_reset_token_expires_at = none;
  }

  -- `resetPassword`.
  unfoldable pub reset_password : String → String → Action (Unit {0})
  unfolding find_user save_user is_reset_open
  reset_password token password = do
    found ← gets (find_user (has_reset_hash (libraries.hash_value token)))
    user ← or_throw found (Error.unauthorized "Invalid or expired reset token")
    in_time ← gets (λ w. is_reset_open w.now user)
    throw_if (not in_time) (Error.unauthorized "Invalid or expired reset token")
    modify (λ w. draw (save_user (reset_user password user w) w))

-- `validate` of the strategy that guards the routes.
unfoldable pub validate : JwtPayload → Action UserView
unfolding find_user
validate payload w = elim (find_user (is_active_user payload.sub) w) [
  | none ↦ (err (Error.unauthorized "Unauthorized"), w)
  | some u ↦ (ok (user_view u), w)
]
