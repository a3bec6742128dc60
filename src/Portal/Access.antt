-- ===== src/Portal/Access.antt =====
-- Proofs on the sessions and the settings of src/portal/portal.service.ts.
use text.Mathlib.TextPositions.{eq_refl}
use subscription_billing_eng.Prelude.{
  ℕ, ◌+◌, false, String, some, none, ◌≡◌, refl, arith, is_empty, ltb, ◌∷◌, if◌then◌else◌,
}
use subscription_billing_eng.Prelude.Table.{find}
use subscription_billing_eng.Entities.{Customer, Merchant, PortalMode, PortalSession}
use subscription_billing_eng.Entities.Json.{Json, Fields, property}
use subscription_billing_eng.World.{World, Error, ok, err}
use subscription_billing_eng.Customers.{is_customer}
use subscription_billing_eng.Payments.Signature.{to_lower}
use subscription_billing_eng.Mail.Service.{send_raw}
use subscription_billing_eng.Portal.Settings.{
  resolve_portal_config, config_source, candidate, pick_config, is_flat, mode_key,
}
use subscription_billing_eng.Portal.Sessions.{
  trim, is_addressed, new_session, open_session, merchant_by_id, request_login, require_session,
  session_by_token,
}
use subscription_billing_eng.Portal.Actions.{
  PortalActionData, execute_action, act, run_action, parse_action,
}

send_raw-sessions :
    (to subject : String) (w : World) → (send_raw to subject w).portal_sessions ≡ w.portal_sessions
unfolding send_raw
send_raw-sessions to subject w = ground arith

login-sessions :
    (email m : String) (mode : PortalMode) (w : World) {c : Customer} {merchant : Merchant}
    → find (is_addressed m (to_lower (trim email))) w.customers ≡ some c
    → merchant_by_id m w ≡ some merchant
    → (request_login email m mode w).1.portal_sessions ≡ new_session m c mode w ∷ w.portal_sessions
unfolding request_login open_session
login-sessions email m mode w known owner = grind (arith, send_raw-sessions)

-- A login by a customer's address opens a session: until a day has passed, its token is answered with
-- an unused session of that merchant, customer and mode that ends then, and after it with the refusal
-- of an expired link.
pub require_session-request_login :
    (email m : String) (mode : PortalMode) (w : World) (t : ℕ) {c : Customer} {merchant : Merchant}
    → find (is_addressed m (to_lower (trim email))) w.customers ≡ some c
    → merchant_by_id m w ≡ some merchant
    → is_empty (w.random_token w.draws) ≡ false
    → (require_session
        (w.random_token w.draws)
        (record (request_login email m mode w).1 { now = t })).0
      ≡ (if ltb (w.now + 86400000) t
          then err (Error.bad_request "This login link has expired.")
          else ok (record {
            id = w.uuid w.draws;
            merchant_id = m;
            customer_id = c.id;
            token = w.random_token w.draws;
            expires_at = w.now + 86400000;
            used_at = none;
            mode = mode;
          }))
unfolding require_session session_by_token find
require_session-request_login email m mode w t known owner named =
    ground (arith, login-sessions email m mode w known owner, eq_refl (w.random_token w.draws))

-- Where the settings have a section for the session's mode that forbids pausing, and are not flat,
-- the pause is refused and nothing changes.
pause_forbidden :
    (token : String) (d : PortalActionData) (w : World) (o section : Fields) {s : PortalSession}
    {c : Customer} {merchant : Merchant}
    → require_session token w ≡ (ok s, w)
    → find (is_customer s.merchant_id s.customer_id) w.customers ≡ some c
    → merchant_by_id s.merchant_id w ≡ some merchant
    → merchant.customer_portal_settings ≡ some (Json.object o)
    → is_flat o ≡ false
    → property (mode_key s.mode) o ≡ some (Json.object section)
    → property "allowPause" section ≡ some (Json.flag false)
    → execute_action token "PAUSE_SUBSCRIPTION" d w
      ≡ (err (Error.bad_request "Pausing is disabled for this portal."), w)
pause_forbidden token d w o section {s} {c} {merchant} opened found owner settings nested mine off =
    stops
  where
    source : config_source o s.mode ≡ section
    source = unfold config_source candidate in ground arith

    forbids : (resolve_portal_config merchant.customer_portal_settings s.mode).allow_pause ≡ false
    forbids = rw settings (unfold resolve_portal_config pick_config in rw source (rw off refl))

    stops :
        execute_action token "PAUSE_SUBSCRIPTION" d w
        ≡ (err (Error.bad_request "Pausing is disabled for this portal."), w)
    stops = unfold execute_action act run_action parse_action in ground (arith, forbids)
