-- ===== src/Auth/Signup.antt =====
-- Proofs on `signup` of src/auth/auth.service.ts.
use text.Mathlib.TextPositions.{eq_refl}
use subscription_billing_eng.Prelude.{
  ℕ, true, String, some, ◌∷◌, ◌≡◌, inl, inr, ap, sym, ◌∙◌, arith, str_eq, Option-cases,
}
use subscription_billing_eng.Prelude.Table.{find}
use subscription_billing_eng.Entities.{User}
use subscription_billing_eng.World.{World, ok}
use subscription_billing_eng.Events.{log}
use subscription_billing_eng.Mail.Service.{send_template}
use subscription_billing_eng.Auth.Service.{
  Libraries, AuthResponse, SignupDto, find_user, has_email, is_active_login, set_refresh_hash,
  generate_tokens, store_refresh_token, open_tokens, login, build_auth_response, signup, new_user,
  insert_user, insert_merchant, new_merchant, user_view,
}
use subscription_billing_eng.Auth.Sessions.{login_lem}

module _ (libraries : Libraries) where
  -- The state after the merchant of a signup was stored.
  abbrev merchant_stored : SignupDto → World → World
  merchant_stored dto w = (insert_merchant dto w).1

  -- A signup that is answered stored a user with the digest of the answered token.
  signup-users :
      (dto : SignupDto) (w : World) {r : AuthResponse}
      → (signup libraries dto w).0 ≡ ok r
      → (m : String) × (v : World) × (digest : String) × ((signup libraries dto w).1.users
          ≡ set_refresh_hash
              (new_user libraries dto m v).id
              digest
              (new_user libraries dto m v ∷ w.users))
        × (r.user ≡ user_view (new_user libraries dto m v))
  signup-users dto w {r} answered = elim (Option-cases (find_user (has_email dto.email) w)) [
    | inr (u, taken) ↦ unfold signup in ground arith
    | inl fresh ↦ elim (Option-cases (find (λ m. str_eq m.email dto.email) w.merchants)) [
      | inr (m, taken) ↦ unfold signup insert_merchant in ground arith
      | inl free ↦
          let m = (new_merchant dto w).id in
          let v = merchant_stored dto w in
          let u = new_user libraries dto m v in
          (
            m,
            v,
            libraries.hash_value
                (generate_tokens libraries u (insert_user libraries dto m v).1).refresh_token,
            unfold signup insert_merchant insert_user open_tokens store_refresh_token log
                  send_template in
                ground arith,
            unfold signup insert_merchant insert_user open_tokens in ground arith,
          )
    ]
  ]

  -- After a signup the user logs in with its address and password, at any later time, where the library
  -- accepts a password against its own hash.
  pub login-signup :
      (dto : SignupDto) (w : World) (t : ℕ) {r : AuthResponse}
      → (signup libraries dto w).0 ≡ ok r
      → ((salt : ℕ)
          → libraries.bcrypt_compare dto.password (libraries.bcrypt_hash dto.password salt) ≡ true)
      → (r' : AuthResponse) × ((login libraries dto.email dto.password
            (record (signup libraries dto w).1 { now = t })).0
          ≡ ok r')
        × (r'.user ≡ r.user)
  unfolding find_user
  login-signup dto w t {r} answered accepts =
      let (m, v, digest, users, view) = signup-users dto w {r = r} answered in
      let u : User = record (new_user libraries dto m v) { refresh_token_hash = some digest } in
      let after : World = record (signup libraries dto w).1 { now = t } in
      let stored : find_user (is_active_login dto.email) after ≡ some u =
        ap (find (is_active_login dto.email)) users
        ∙ unfold find set_refresh_hash in ground (arith, eq_refl dto.email, eq_refl u.id) in
      let (answer, others, config) =
        login_lem libraries dto.email dto.password after stored (accepts v.draws) in
      (build_auth_response u (generate_tokens libraries u after), answer, sym view)
