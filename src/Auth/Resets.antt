-- ===== src/Auth/Resets.antt =====
-- Proofs on the reset of a password in src/auth/auth.service.ts.
use text.Mathlib.TextPositions.{eq_refl}
use subscription_billing_eng.Prelude.{
  ℕ, true, String, none, some, [], ◌∷◌, ◌≡◌, inl, inr, refl, ap, ◌∙◌, arith, str_eq, filter,
  Bool-cases, Option-cases,
}
use subscription_billing_eng.Prelude.Table.{find, save, find-save, find-holds}
use subscription_billing_eng.Prelude.Table.Alone.{find-save_only, find-filter}
use subscription_billing_eng.Entities.{User}
use subscription_billing_eng.World.{World, Error, ok, err, draw}
use subscription_billing_eng.World.Frame.{and-left}
use subscription_billing_eng.Auth.Service.{
  Libraries, AuthResponse, find_user, save_user, has_reset_hash, is_active_login, is_reset_open,
  JwtPayload, is_active_user, holds_token, refresh, reset_user, reset_password, login, user_view,
  build_auth_response, generate_tokens,
}
use subscription_billing_eng.Auth.Sessions.{login_lem, refresh_lem}

abbrev pub invalid_reset_token : Error
invalid_reset_token = Error.unauthorized "Invalid or expired reset token"

module _ (libraries : Libraries) where
  -- A reset that is answered found its user, and stored the new password.
  reset_password-found :
      (token password : String) (w : World)
      → (reset_password libraries token password w).0 ≡ ok tt
      → (u : User) × (find_user (has_reset_hash (libraries.hash_value token)) w ≡ some u)
        × ((reset_password libraries token password w).1
            ≡ draw (save_user (reset_user libraries password u w) w))
  reset_password-found token password w answered =
      elim (Option-cases (find_user (has_reset_hash (libraries.hash_value token)) w)) [
        | inl gone ↦ unfold reset_password in ground arith
        | inr (u, found) ↦ elim (Bool-cases (is_reset_open w.now u)) [
          | inl in_time ↦ (u, found, unfold reset_password in ground arith)
          | inr late ↦ unfold reset_password in ground arith
        ]
      ]

  reset_password-gone :
      (token password : String) (w : World)
      → find_user (has_reset_hash (libraries.hash_value token)) w ≡ none
      → reset_password libraries token password w ≡ (err invalid_reset_token, w)
  unfolding reset_password
  reset_password-gone token password w gone = ground arith

  -- A token of one user alone that reset the password is refused at any later time.
  pub reset_password_once :
      (token password again : String) (w : World) (t : ℕ) {u : User}
      → (reset_password libraries token password w).0 ≡ ok tt
      → filter (has_reset_hash (libraries.hash_value token)) w.users ≡ u ∷ []
      → find (λ x. str_eq x.id u.id) w.users ≡ some u
      → (reset_password libraries token again
          (record (reset_password libraries token password w).1 { now = t })).0
        ≡ err invalid_reset_token
  unfolding find_user save_user
  reset_password_once token password again w t {u} answered only first =
      let (k, found, state) = reset_password-found token password w answered in
      let u' = reset_user libraries password u w in
      let same : k ≡ u =
        cc (find-filter (has_reset_hash (libraries.hash_value token)) w.users only) in
      let v : World = record (reset_password libraries token password w).1 { now = t } in
      let gone : find_user (has_reset_hash (libraries.hash_value token)) v ≡ none =
        ap (λ x. find (has_reset_hash (libraries.hash_value token)) x.users) state
        ∙ ap
            (λ x.
              find (has_reset_hash (libraries.hash_value token))
                (save (λ y. y.id) (reset_user libraries password x w) w.users))
            same
        ∙ find-save_only (λ x. x.id) (has_reset_hash (libraries.hash_value token)) u u' w.users refl
            only first in
      ap (λ x. x.0) (reset_password-gone token again v gone)

  -- After a reset the user of the address logs in with the new password, where the library accepts a
  -- password against its own hash.
  pub login-reset_password :
      (token password : String) (w : World) {u : User}
      → (reset_password libraries token password w).0 ≡ ok tt
      → find_user (has_reset_hash (libraries.hash_value token)) w ≡ some u
      → u.is_active ≡ true
      → ((x : User) → is_active_login u.email x ≡ true → str_eq x.id u.id ≡ true)
      → ((salt : ℕ)
          → libraries.bcrypt_compare password (libraries.bcrypt_hash password salt) ≡ true)
      → (r : AuthResponse) × ((login libraries u.email password
            (reset_password libraries token password w).1).0
          ≡ ok r)
        × (r.user ≡ user_view u)
  unfolding find_user save_user
  login-reset_password token password w {u} answered mine active unique accepts =
      let (k, found, state) = reset_password-found token password w answered in
      let u' = reset_user libraries password u w in
      let v = (reset_password libraries token password w).1 in
      let same : k ≡ u = cc in
      let stored : find_user (is_active_login u.email) v ≡ some u' =
        ap (λ x. find (is_active_login u.email) x.users) state
        ∙ ap
            (λ x.
              find (is_active_login u.email)
                (save (λ y. y.id) (reset_user libraries password x w) w.users))
            same
        ∙ find-save (λ x. x.id) (is_active_login u.email) u' w.users
            (ground (arith, eq_refl u.email)) unique in
      let (answer, users, config) =
        login_lem libraries u.email password v stored (accepts w.draws) in
      (build_auth_response u' (generate_tokens libraries u' v), answer, refl)

  -- A refresh token that the user held before a reset of the password is accepted after it.
  refresh_survives_reset :
      (token password held : String) (w : World) {u : User} {payload : JwtPayload}
      → (reset_password libraries token password w).0 ≡ ok tt
      → find_user (has_reset_hash (libraries.hash_value token)) w ≡ some u
      → find_user (is_active_user u.id) w ≡ some u
      → libraries.verify held w.config.jwt_refresh_secret w.now ≡ some payload
      → payload.sub ≡ u.id
      → holds_token libraries held u ≡ true
      → (r : AuthResponse) × ((refresh libraries held
            (reset_password libraries token password w).1).0
          ≡ ok r)
        × (r.user ≡ user_view u)
  unfolding find_user save_user
  refresh_survives_reset token password held w {u} {payload} answered mine own verified names
        holds =
      let (k, found, state) = reset_password-found token password w answered in
      let u' = reset_user libraries password u w in
      let v = draw (save_user u' w) in
      let same : k ≡ u = cc in
      let went : (reset_password libraries token password w).1 ≡ v =
        state ∙ ap (λ x. draw (save_user (reset_user libraries password x w) w)) same in
      let stored : find_user (is_active_user payload.sub) v ≡ some u' =
        ap (λ x. find_user (is_active_user x) v) names
        ∙ find-save (λ x. x.id) (is_active_user u.id) u' w.users
            (find-holds (is_active_user u.id) w.users own) (λ x h. and-left _ x.is_active h) in
      let still : holds_token libraries held u' ≡ true = unfold holds_token in holds in
      (
        build_auth_response u' (generate_tokens libraries u' v),
        rw went (ap (λ x. x.0) (refresh_lem libraries held v verified stored) ∙ rw still refl),
        refl,
      )
