-- ===== src/Auth/Sessions.antt =====
-- Proofs on the tokens of src/auth/auth.service.ts.
use text.Mathlib.TextEquality.{eq_iff}
use text.Mathlib.TextPositions.{eq_refl}
use subscription_billing_eng.Prelude.{
  ℕ, true, false, String, some, List, [], ◌∷◌, ◌≡◌, inl, inr, refl, ap, sym, ◌∙◌, arith, str_eq,
  truthy, Bool-cases, Option-cases, if◌then◌else◌,
}
use subscription_billing_eng.Prelude.Table.{find, find-holds}
use subscription_billing_eng.Entities.{User}
use subscription_billing_eng.World.{World, ok, err}
use subscription_billing_eng.World.Frame.{and-left}
use subscription_billing_eng.Events.{log}
use subscription_billing_eng.Auth.Service.{
  Libraries, JwtPayload, AuthResponse, find_user, is_active_login, is_active_user, set_refresh_hash,
  generate_tokens, store_refresh_token, open_tokens, login, refresh, holds_token,
  invalid_refresh_token, build_auth_response,
}

-- The active user of an identifier after a new digest was stored.
find-set_refresh_hash :
    (id k digest : String) (us : List User) {u : User}
    → find (is_active_user k) us ≡ some u
    → find (is_active_user k) (set_refresh_hash id digest us)
      ≡ some (if str_eq id k then record u { refresh_token_hash = some digest } else u)
unfolding find set_refresh_hash
find-set_refresh_hash id k digest [] found = cc
find-set_refresh_hash id k digest (x ∷ xs) {u} found = ground (
  arith,
  eq_iff x.id k,
  eq_iff x.id id,
  eq_iff id k,
  find-set_refresh_hash id k digest xs {u = u},
)

-- The user with the digest of a token.
abbrev pub with_token : Libraries → String → User → User
with_token libraries token u = record u { refresh_token_hash = some (libraries.hash_value token) }

module _ (libraries : Libraries) where
  -- A refresh of a token that says which active user it is of.
  pub refresh_lem :
      (token : String) (w : World) {payload : JwtPayload} {u : User}
      → libraries.verify token w.config.jwt_refresh_secret w.now ≡ some payload
      → find_user (is_active_user payload.sub) w ≡ some u
      → refresh libraries token w ≡ (
          if holds_token libraries token u
          then (
            ok (build_auth_response u (generate_tokens libraries u w)),
            store_refresh_token libraries u.id (generate_tokens libraries u w).refresh_token w,
          )
          else (err invalid_refresh_token, w))
  unfolding refresh open_tokens
  refresh_lem token w {payload} {u} verified found = ground arith

  -- The session of a user after new tokens were stored.
  find_user-store :
      (id token : String) (w : World) {u : User}
      → find_user (is_active_user id) w ≡ some u
      → find_user (is_active_user id) (store_refresh_token libraries u.id token w)
        ≡ some (with_token libraries token u)
  unfolding find_user store_refresh_token
  find_user-store id token w {u} found =
      let named = and-left _ u.is_active (find-holds (is_active_user id) w.users found) in
      find-set_refresh_hash u.id id (libraries.hash_value token) w.users found ∙ rw named refl

  holds_token-with_token :
      (old new : String) (u : User)
      → str_eq (libraries.hash_value new) (libraries.hash_value old) ≡ false
      → holds_token libraries old (with_token libraries new u) ≡ false
  unfolding holds_token
  holds_token-with_token old new u apart = ground arith

  -- An answered refresh named an active user who holds the token.
  record Refreshed (token : String) (w : World) (r : AuthResponse) : Type 0 where
    payload : JwtPayload
    user : User
    verified : libraries.verify token w.config.jwt_refresh_secret w.now ≡ some payload
    found : find_user (is_active_user payload.sub) w ≡ some user
    holds : holds_token libraries token user ≡ true

  refresh-Refreshed :
      (token : String) (w : World) {r : AuthResponse}
      → (refresh libraries token w).0 ≡ ok r
      → Refreshed token w r
  refresh-Refreshed token w {r} answered =
      elim (Option-cases (libraries.verify token w.config.jwt_refresh_secret w.now)) [
        | inl forged ↦ unfold refresh in ground arith
        | inr (payload, verified) ↦ elim (Option-cases (find_user (is_active_user payload.sub) w)) [
          | inl gone ↦ unfold refresh in ground arith
          | inr (u, found) ↦ elim (Bool-cases (holds_token libraries token u)) [
            | inl holds ↦ record {
              payload = payload;
              user = u;
              verified = verified;
              found = found;
              holds = holds;
            }
            | inr stale ↦ let e = refresh_lem token w verified found in ground arith
          ]
        ]
      ]

  -- A token that was exchanged for new ones is refused, at any later time, where the digest of the new
  -- one is another.
  pub refresh_rotates :
      (token : String) (w : World) (t : ℕ) {r : AuthResponse}
      → (refresh libraries token w).0 ≡ ok r
      → libraries.verify token w.config.jwt_refresh_secret t
        ≡ libraries.verify token w.config.jwt_refresh_secret w.now
      → str_eq (libraries.hash_value r.tokens.refresh_token) (libraries.hash_value token) ≡ false
      → (refresh libraries token (record (refresh libraries token w).1 { now = t })).0
        ≡ err invalid_refresh_token
  unfolding store_refresh_token find_user
  refresh_rotates token w t {r} answered lasting apart =
      let f = refresh-Refreshed token w {r = r} answered in
      let u = f.user in
      let new = (generate_tokens libraries u w).refresh_token in
      let v : World = record (store_refresh_token libraries u.id new w) { now = t } in
      let went : refresh libraries token w ≡ (
        ok (build_auth_response u (generate_tokens libraries u w)),
        store_refresh_token libraries u.id new w,
      ) =
        refresh_lem token w f.verified f.found ∙ rw f.holds refl in
      let named : r.tokens.refresh_token ≡ new = cc in
      let kept : find_user (is_active_user f.payload.sub) v ≡ some (with_token libraries new u) =
        find_user-store f.payload.sub new w f.found in
      let stale : holds_token libraries token (with_token libraries new u) ≡ false =
        holds_token-with_token token new u (rw named at apart) in
      rw went (ap (λ x. x.0) (refresh_lem token v (lasting ∙ f.verified) kept) ∙ rw stale refl)

  -- A login of an active user, where the password is the user's.
  pub login_lem :
      (email password : String) (w : World) {u : User}
      → find_user (is_active_login email) w ≡ some u
      → libraries.bcrypt_compare password u.password_hash ≡ true
      → ((login libraries email password w).0
          ≡ ok (build_auth_response u (generate_tokens libraries u w)))
        × ((login libraries email password w).1.users
            ≡ (store_refresh_token libraries u.id
                (generate_tokens libraries u w).refresh_token
                w).users)
        × ((login libraries email password w).1.config ≡ w.config)
  unfolding login open_tokens log store_refresh_token
  login_lem email password w {u} found right = (ground arith, ground arith, ground arith)

  -- A login that is answered found the user and the password.
  login-found :
      (email password : String) (w : World) {r : AuthResponse}
      → (login libraries email password w).0 ≡ ok r
      → (u : User) × (find_user (is_active_login email) w ≡ some u)
        × (libraries.bcrypt_compare password u.password_hash ≡ true)
  login-found email password w {r} answered =
      elim (Option-cases (find_user (is_active_login email) w)) [
        | inl gone ↦ unfold login in ground arith
        | inr (u, found) ↦ elim (Bool-cases (libraries.bcrypt_compare password u.password_hash)) [
          | inl right ↦ (u, found, right)
          | inr wrong ↦ unfold login in ground arith
        ]
      ]

  -- The refresh token that a login answers is accepted for the same user while it is verified, where
  -- the user's identifier is the user's alone and no digest is empty.
  pub refresh-login :
      (email password : String) (w : World) (t : ℕ) {r : AuthResponse} {payload : JwtPayload}
      → (login libraries email password w).0 ≡ ok r
      → find_user (is_active_user r.user.id) w ≡ find_user (is_active_login email) w
      → libraries.verify r.tokens.refresh_token w.config.jwt_refresh_secret t ≡ some payload
      → payload.sub ≡ r.user.id
      → truthy (some (libraries.hash_value r.tokens.refresh_token)) ≡ true
      → (r' : AuthResponse) × ((refresh libraries r.tokens.refresh_token
            (record (login libraries email password w).1 { now = t })).0
          ≡ ok r')
        × (r'.user ≡ r.user)
  unfolding find_user
  refresh-login email password w t {r} {payload} answered keyed verified names filled =
      let (u, found, right) = login-found email password w {r = r} answered in
      let (answer, users, config) = login_lem email password w found right in
      let new = (generate_tokens libraries u w).refresh_token in
      let v : World = record (login libraries email password w).1 { now = t } in
      let same : r ≡ build_auth_response u (generate_tokens libraries u w) = cc in
      let token_is : r.tokens.refresh_token ≡ new = ap (λ x. x.tokens.refresh_token) same in
      let id_is : r.user.id ≡ u.id = ap (λ x. x.user.id) same in
      let own : find_user (is_active_user u.id) w ≡ some u =
        ap (λ x. find_user (is_active_user x) w) (sym id_is) ∙ keyed ∙ found in
      let kept : find_user (is_active_user payload.sub) v ≡ some (with_token libraries new u) =
        ap (λ x. find (is_active_user x) v.users) (names ∙ id_is)
        ∙ ap (find (is_active_user u.id)) users
        ∙ find_user-store u.id new w own in
      let checked : libraries.verify new v.config.jwt_refresh_secret t ≡ some payload =
        ap (λ c. libraries.verify new c.jwt_refresh_secret t) config ∙ rw token_is at verified in
      let holds : holds_token libraries new (with_token libraries new u) ≡ true =
        unfold holds_token in
        ground (arith, rw token_is at filled, eq_refl (libraries.hash_value new)) in
      (
        build_auth_response (with_token libraries new u)
            (generate_tokens libraries (with_token libraries new u) v),
        rw token_is (ap (λ x. x.0) (refresh_lem new v checked kept) ∙ rw holds refl),
        sym (ap (λ x. x.user) same),
      )
