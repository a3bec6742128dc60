-- ===== src/Portal/Sessions.antt =====
-- The sessions of src/portal/portal.service.ts: `requestLogin` and `requireSession`. The text of the
-- e-mail is left out.
use Prim.Native.Char.{code}
use Prim.Native.String
use subscription_billing_eng.Prelude.{
  ℕ, ◌+◌, Bool, String, Option, none, some, ◌∷◌, ◌&&◌, str_eq, ltb, is_empty, if◌then◌else◌,
}
use subscription_billing_eng.Prelude.Table.{find, save}
use subscription_billing_eng.Entities.{Customer, Merchant, PortalMode, PortalSession}
use subscription_billing_eng.World.{World, Action, Error, ok, err, next_id, draw}
use subscription_billing_eng.Payments.Reference.{is_space, skip_spaces}
use subscription_billing_eng.Payments.Signature.{to_lower}
use subscription_billing_eng.Mail.Service.{send_raw}

-- The text without the spaces at its end.
trim_end : String → String
trim_end String.[] = ""
trim_end (String.◌∷◌ c s) =
    let rest = trim_end s in if is_space (code c) && is_empty rest then "" else String.◌∷◌ c rest

-- `trim()`.
unfoldable pub trim : String → String
unfolding trim_end
trim s = trim_end (skip_spaces s)

-- A day.
abbrev pub session_ttl_ms : ℕ
session_ttl_ms = 86400000

unfoldable pub merchant_by_id : String → World → Option Merchant
unfolding find
merchant_by_id id w = find (λ m. str_eq m.id id) w.merchants

abbrev pub is_addressed : String → String → Customer → Bool
is_addressed m email c = str_eq c.email email && str_eq c.merchant_id m

abbrev pub new_session : String → Customer → PortalMode → World → PortalSession
new_session m c mode w = record {
  id = next_id w;
  merchant_id = m;
  customer_id = c.id;
  token = w.random_token w.draws;
  expires_at = w.now + session_ttl_ms;
  used_at = none;
  mode = mode;
}

-- `merchant.businessName || 'your merchant'`.
abbrev brand_name : Merchant → String
brand_name m = if is_empty m.business_name then "your merchant" else m.business_name

-- The session is stored, and its address sent.
unfoldable pub open_session : String → Customer → Merchant → PortalMode → World → World
unfolding send_raw
open_session m c merchant mode w =
    send_raw c.email (String.◌++◌ "Access your subscriber portal for " (brand_name merchant))
      (draw (record w { portal_sessions = new_session m c mode w ∷ w.portal_sessions }))

-- `requestLogin`: it answers `{ sent: true }` whether the customer is known or not.
unfoldable pub request_login : String → String → PortalMode → Action (Unit {0})
unfolding merchant_by_id find
request_login email m mode w = elim (find (is_addressed m (to_lower (trim email))) w.customers) [
  | none ↦ (ok tt, w)
  | some c ↦ elim (merchant_by_id m w) [
    | none ↦ (ok tt, w)
    | some merchant ↦ (ok tt, open_session m c merchant mode w)
  ]
]

unfoldable pub session_by_token : String → World → Option PortalSession
unfolding find
session_by_token token w = find (λ s. str_eq s.token token) w.portal_sessions

-- `requireSession`.
unfoldable pub require_session : String → Action PortalSession
require_session token w =
    if is_empty token
    then (err (Error.bad_request "Missing portal session token."), w)
    else elim (session_by_token token w) [
      | none ↦ (err (Error.not_found "Invalid or expired login link."), w)
      | some s ↦
          if ltb s.expires_at w.now
          then (err (Error.bad_request "This login link has expired."), w)
          else (ok s, w)
    ]

unfoldable pub save_session : PortalSession → World → World
unfolding save
save_session s w = record w { portal_sessions = save (λ x. x.id) s w.portal_sessions }
