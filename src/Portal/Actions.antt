-- ===== src/Portal/Actions.antt =====
-- `executeAction` of src/portal/portal.service.ts.
use Prim.Native.String
use subscription_billing_eng.Prelude.{
  String, Option, none, some, ◌&&◌, ◌||◌, not, str_eq, truthy, or_else, is_empty, if◌then◌else◌,
}
use subscription_billing_eng.Prelude.Table.{find}
use subscription_billing_eng.Entities.{Customer, Subscription, Merchant, PortalSession}
use subscription_billing_eng.World.{
  World, Action, Error, pure, modify, or_throw, throw, throw_if, ◌>>=◌, ◌>>◌, save_customer,
  save_subscription,
}
use subscription_billing_eng.Customers.{is_customer}
use subscription_billing_eng.Subscriptions.Service.{pause, resume, cancel, reactivate, change_plan}
use subscription_billing_eng.Portal.Settings.{PortalConfig, resolve_portal_config}
use subscription_billing_eng.Portal.Sessions.{trim, require_session, save_session, merchant_by_id}
use subscription_billing_eng.Portal.View.{SessionState, latest_subscription, get_session_state}

pub data PortalAction : Type 0 where
  update_contact pause_subscription resume_subscription cancel_subscription : PortalAction
  reactivate_subscription switch_plan : PortalAction

-- The labels of the `switch`.
unfoldable pub parse_action : String → Option PortalAction
parse_action a =
    if str_eq a "UPDATE_CONTACT"
    then some PortalAction.update_contact
    else if str_eq a "PAUSE_SUBSCRIPTION"
    then some PortalAction.pause_subscription
    else if str_eq a "RESUME_SUBSCRIPTION"
    then some PortalAction.resume_subscription
    else if str_eq a "CANCEL_SUBSCRIPTION"
    then some PortalAction.cancel_subscription
    else if str_eq a "REACTIVATE_SUBSCRIPTION"
    then some PortalAction.reactivate_subscription
    else if str_eq a "SWITCH_PLAN"
    then some PortalAction.switch_plan
    else none

-- The keys of the request's `data`; of `phone`, `none` is an absent key and `some none` is `null`.
pub record PortalActionData : Type 0 where
  pub name : Option String
  pub phone : Option (Option String)
  pub reason : Option String
  pub cancel_reason : Option String
  pub plan_id : Option String

-- `config.editableName && typeof data.name === 'string' && data.name.trim()`.
unfoldable pub renamed : PortalConfig → Option String → Customer → Customer
renamed config none c = c
renamed config (some name) c =
    if config.editable_name && not (is_empty (trim name)) then record c { name = trim name } else c

unfoldable pub with_phone : PortalConfig → Option (Option String) → Customer → Customer
with_phone config none c = c
with_phone config (some phone) c =
    if config.editable_phone
    then record c { phone = elim phone [ none ↦ none | some p ↦ some (trim p) ] }
    else c

unfoldable pub save_contact : PortalConfig → Customer → PortalActionData → Action (Unit {0})
unfolding renamed with_phone
save_contact config customer d = do
  throw_if (not config.editable_name && not config.editable_phone)
      (Error.bad_request "Contact updates are disabled for this portal.")
  modify (save_customer (with_phone config d.phone (renamed config d.name customer)))

abbrev pub need_subscription : Option Subscription → Action Subscription
need_subscription s = or_throw s (Error.bad_request "No active subscription found.")

-- The reason of a cancellation is kept in the subscription's metadata.
unfoldable pub keep_reason : PortalActionData → Subscription → World → World
keep_reason d cancelled w =
    if truthy d.reason || truthy d.cancel_reason
    then save_subscription
        (record cancelled { cancel_reason = some (or_else d.reason (or_else d.cancel_reason "")) })
        w
    else w

-- The cases of the `switch`.
unfoldable pub run_action :
    PortalAction
    → PortalConfig
    → String
    → Customer
    → Option Subscription
    → PortalActionData
    → Action (Unit {0})
run_action PortalAction.update_contact config m customer s d = save_contact config customer d
run_action PortalAction.pause_subscription config m customer s d = do
  throw_if (not config.allow_pause) (Error.bad_request "Pausing is disabled for this portal.")
  own ← need_subscription s
  pause m own.id "customer"
  pure tt
run_action PortalAction.resume_subscription config m customer s d = do
  own ← need_subscription s
  resume m own.id "customer"
  pure tt
run_action PortalAction.cancel_subscription config m customer s d = do
  throw_if (not config.allow_cancellation)
      (Error.bad_request "Cancellation is disabled for this portal.")
  own ← need_subscription s
  cancelled ← cancel m own.id "customer"
  modify (keep_reason d cancelled)
run_action PortalAction.reactivate_subscription config m customer s d = do
  own ← need_subscription s
  reactivate m own.id "customer"
  pure tt
run_action PortalAction.switch_plan config m customer s d = do
  throw_if (not config.allow_switch_plan)
      (Error.bad_request "Plan switching is disabled for this portal.")
  own ← need_subscription s
  throw_if (not (truthy d.plan_id)) (Error.bad_request "Missing target plan ID.")
  change_plan m own.id (or_else d.plan_id "") "customer"
  pure tt

-- The first use of the session is noted; it may be used again until it expires.
unfoldable pub note_use : PortalSession → World → World
note_use session w = elim session.used_at [
  | none ↦ save_session (record session { used_at = some w.now }) w
  | some t ↦ w
]

-- The action of a session, its customer and its merchant.
unfoldable pub act :
    PortalSession → Customer → Merchant → String → PortalActionData → Action (Unit {0})
act session customer merchant action d w =
    let config = resolve_portal_config merchant.customer_portal_settings session.mode in
    let s = latest_subscription session.merchant_id customer.id w in
    elim (parse_action action) [
      | none ↦ throw (Error.bad_request (String.◌++◌ "Unknown action type: " action)) w
      | some a ↦
          (run_action a config session.merchant_id customer s d >> modify (note_use session)) w
    ]

-- `executeAction`.
unfoldable pub execute_action : String → String → PortalActionData → Action SessionState
unfolding find
execute_action token action d = do
  session ← require_session token
  customer ← λ w.
      or_throw (find (is_customer session.merchant_id session.customer_id) w.customers)
        (Error.not_found "Customer not found.") w
  merchant ←
      λ w. or_throw (merchant_by_id session.merchant_id w) (Error.not_found "Merchant not found.") w
  act session customer merchant action d
  get_session_state token
