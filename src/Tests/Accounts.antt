-- ===== src/Tests/Accounts.antt =====
-- Accounts, at concrete rows and stand-ins for the libraries.
use subscription_billing_eng.Prelude.{
  filter, ◌≡◌, refl, true, none, some, [], ◌∷◌, str_eq, ltb, if◌then◌else◌,
}
use subscription_billing_eng.Prelude.Table.{find}
use subscription_billing_eng.Entities.{SubscriptionStatus, User}
use subscription_billing_eng.World.{World, ok, err}
use subscription_billing_eng.Auth.Service.{
  Libraries, SignupDto, AuthResponse, AuthTokens, invalid_refresh_token, signup, login, refresh,
  reset_password, new_user, user_view, has_reset_hash,
}
use subscription_billing_eng.Auth.Sessions.{refresh_rotates}
use subscription_billing_eng.Auth.Resets.{reset_password_once, invalid_reset_token}
use subscription_billing_eng.Auth.Signup.{login-signup}
use subscription_billing_eng.Tests.Fixtures.{world}

-- Hashes that keep the text, and tokens that differ by the time they were signed at.
abbrev libraries : Libraries
libraries = record {
  bcrypt_hash = λ password salt. password;
  bcrypt_compare = λ password hash. str_eq password hash;
  hash_value = λ text. text;
  sign = λ payload secret expiry now. if ltb now 5000 then "first" else "second";
  verify = λ token secret now.
      some (record { sub = "user"; email = "shop@example.com"; merchant_id = "m" });
}

abbrev user : User
user = record {
  id = "user";
  merchant_id = "m";
  email = "shop@example.com";
  password_hash = "password";
  first_name = none;
  last_name = none;
  refresh_token_hash = some "first";
  password_reset_token_hash = some "reset";
  password_reset_token_expires_at = some 6000;
  is_active = true;
}

abbrev state : World
state = record (world true SubscriptionStatus.active) { users = user ∷ [] }

abbrev tokens : AuthTokens
tokens = record { access_token = "second"; refresh_token = "second"; expires_in = "15m" }

refreshed :
    (refresh libraries "first" state).0 ≡ ok (record { user = user_view user; tokens = tokens })
unfolding refresh
refreshed = refl

refresh_rotates_example :
    (refresh libraries "first" (record (refresh libraries "first" state).1 { now = 7000 })).0
    ≡ err invalid_refresh_token
refresh_rotates_example = refresh_rotates libraries "first" state 7000 refreshed refl refl

was_reset : (reset_password libraries "reset" "new password" state).0 ≡ ok tt
unfolding reset_password
was_reset = refl

reset_is_alone : filter (has_reset_hash "reset") state.users ≡ user ∷ []
unfolding filter
reset_is_alone = refl

user_is_first : find (λ x. str_eq x.id "user") state.users ≡ some user
unfolding find
user_is_first = refl

reset_password_once_example :
    (reset_password libraries "reset" "another"
      (record (reset_password libraries "reset" "new password" state).1 { now = 5500 })).0
    ≡ err invalid_reset_token
reset_password_once_example =
    reset_password_once libraries "reset" "new password" "another" state 5500 was_reset
      reset_is_alone user_is_first

abbrev dto : SignupDto
dto = record {
  business_name = "Kiosk";
  email = "kiosk@example.com";
  password = "password";
  first_name = some "Ada";
  last_name = none;
  phone = none;
}

abbrev joined : AuthResponse
joined = record { user = user_view (new_user libraries dto "fresh" state); tokens = tokens }

signed_up : (signup libraries dto state).0 ≡ ok joined
unfolding signup
signed_up = refl

login-signup_example :
    (r : AuthResponse) × ((login libraries "kiosk@example.com" "password"
        (record (signup libraries dto state).1 { now = 9000 })).0
      ≡ ok r)
    × (r.user ≡ joined.user)
login-signup_example = login-signup libraries dto state 9000 signed_up (λ salt. refl)
