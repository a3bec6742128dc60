-- ===== src/Tests/Serving.antt =====
-- The event worker, notifications, the portal and the figures, at concrete rows.
use mathlib.Core.Path.{subst}
use subscription_billing_eng.Prelude.{
  ℕ, String, zero, suc, ◌+◌, ◌≤◌, arith, ◌≡◌, ◌≢◌, ◌⊎◌, refl, true, false, none, some, [], ◌∷◌,
  length, map, get_elem?, All, ltb, if◌then◌else◌,
}
use subscription_billing_eng.Prelude.Table.{find}
use subscription_billing_eng.Entities.{
  SubscriptionStatus, Subscription, status_code, PortalMode, PortalSession, Notification,
  NotificationChannel, NotificationStatus, EventData,
}
use subscription_billing_eng.World.{World, EventStore, ok, err, Error}
use subscription_billing_eng.Dunning.Schedule.{subscription_by_id}
use subscription_billing_eng.Events.DomainEvent
use subscription_billing_eng.Events.Processor.{event_by_id, process_event}
use subscription_billing_eng.Events.Processor.Progress.{process_event_once}
use subscription_billing_eng.Events.Processor.Worker.{IsProcessed, process_event_processes}
use subscription_billing_eng.Notifications.Answering.{FormatsCurrencies}
use subscription_billing_eng.Mail.Payload.{
  payload_subscription, payload_plan, payload_invoice, invoice_currency, payment_currency,
}
use subscription_billing_eng.Mail.Templates.{subscription_plan}
use subscription_billing_eng.Notifications.{
  queue_for_event, queue_phone_channels, queue_email_for_event, notification_by_id, send,
}
use subscription_billing_eng.Notifications.Sending.{send_settles}
use subscription_billing_eng.Webhooks.{dispatch_for_event, dispatch_all}
use subscription_billing_eng.Mail.Templates.{resolve_template, payment_failed_mail}
use subscription_billing_eng.Mail.Recipients.{subscription_customer, invoice_customer}
use subscription_billing_eng.Payments.Reference.{skip_spaces}
use subscription_billing_eng.Subscriptions.StateMachine.Graph.{IsMove}
use subscription_billing_eng.Payments.Signature.{to_lower}
use subscription_billing_eng.Portal.Sessions.{
  trim, is_addressed, merchant_by_id, request_login, require_session, session_by_token,
}
use subscription_billing_eng.Portal.Actions.{PortalActionData, execute_action}
use subscription_billing_eng.Portal.Ownership.{execute_action_own, execute_action_moves}
use subscription_billing_eng.Portal.Access.{require_session-request_login}
use subscription_billing_eng.Analytics.Calendar.{
  TrendGranularity, bucket_loop, generate_date_buckets,
}
use subscription_billing_eng.Analytics.Buckets.{
  is_bucket, generate_date_buckets_ends, generate_date_buckets-day,
}
use subscription_billing_eng.Analytics.Groups.{occurrences}
use subscription_billing_eng.Analytics.Counts.{
  statuses_of, count_of, get_subscription_status_counts, get_subscription_status_counts-occurrences,
}
use subscription_billing_eng.Analytics.Payments.{merchant_payments, get_payment_analytics}
use subscription_billing_eng.Analytics.Partition.{get_payment_analytics-partition}
use subscription_billing_eng.Analytics.Plans.{
  total_mrr, plan_entry, merchant_plans, get_plan_breakdown,
}
use subscription_billing_eng.Analytics.Ranking.{IsFalling, get_plan_breakdown-IsFalling}
use subscription_billing_eng.Tests.Fixtures.{
  world, subscription, customer, invoice, payment, merchant,
}

-- The event of a failed payment, and one in a currency that is not known.
abbrev failed_event : EventStore
failed_event = record {
  id = "ev";
  merchant_id = "m";
  event_type = DomainEvent.payment_failed;
  aggregate_type = "payment";
  aggregate_id = "pay";
  correlation_id = "corr";
  category = "payment";
  payload = EventData.payment_failed payment invoice;
  environment = "test";
  chaos = none;
  processed = false;
  processed_at = none;
  created_at = 4000;
}

abbrev state : World
state = record (world true SubscriptionStatus.active) { events = failed_event ∷ [] }

formats : FormatsCurrencies failed_event state
unfolding subscription_plan payload_subscription payload_plan payload_invoice invoice_currency
    payment_currency
formats = (
  λ a. ("NGN 100.00", refl),
  λ a. ("NGN 100.00", refl),
  λ a. ("NGN 100.00", refl),
  λ a. ("NGN 100.00", refl),
)

event_found : event_by_id "ev" state ≡ some failed_event
unfolding event_by_id
event_found = refl

processed_fine : (process_event "ev" state).0 ≡ ok tt
unfolding process_event queue_for_event queue_email_for_event resolve_template payment_failed_mail
    dispatch_for_event dispatch_all subscription_customer invoice_customer queue_phone_channels
processed_fine = refl

process_event_once_example :
    process_event "ev" (process_event "ev" state).1 ≡ (ok tt, (process_event "ev" state).1)
process_event_once_example = process_event_once "ev" state processed_fine

process_event_processes_example :
    ((process_event "ev" state).0 ≡ ok tt)
    × IsProcessed "ev" (process_event "ev" state).1
    × ((j : String) → IsProcessed "ev" (process_event j (process_event "ev" state).1).1)
process_event_processes_example = process_event_processes "ev" state formats event_found

abbrev notification : Notification
notification = record {
  id = "note";
  merchant_id = "m";
  channel = NotificationChannel.sms;
  recipient = "+2348000000000";
  subject = "Payment failed";
  body = "body";
  status = NotificationStatus.pending;
  event_type = DomainEvent.payment_failed;
  event_id = "ev";
  template = none;
  context = none;
  provider_message_id = none;
  provider_status = none;
  simulated = none;
  sent_at = none;
}

abbrev noted : World
noted = record state { notifications = notification ∷ [] }

notification_found : notification_by_id "note" noted ≡ some notification
unfolding notification_by_id
notification_found = refl

send_settles_example :
    (n : Notification) × (notification_by_id "note" (send "note" noted) ≡ some n)
    × (((n.status ≡ NotificationStatus.sent) × (n.sent_at ≡ some 5000))
        ⊎ ((n.status ≡ NotificationStatus.failed)
            × (NotificationChannel.sms ≢ NotificationChannel.email)))
send_settles_example = send_settles "note" noted notification_found

-- A session of another customer than the subscription's.
abbrev session : PortalSession
session = record {
  id = "sess";
  merchant_id = "m";
  customer_id = "cust2";
  token = "tok";
  expires_at = 9000;
  used_at = none;
  mode = PortalMode.live;
}

abbrev portal : World
portal = record state {
  portal_sessions = session ∷ [];
  customers = record customer { id = "cust2" } ∷ customer ∷ [];
  subscriptions =
      record (subscription SubscriptionStatus.active) { id = "sub2"; customer_id = "cust2" }
      ∷ subscription SubscriptionStatus.active
      ∷ [];
}

abbrev nothing_more : PortalActionData
nothing_more = record {
  name = none;
  phone = none;
  reason = none;
  cancel_reason = none;
  plan_id = none;
}

keyed :
    (n : ℕ) (s : Subscription)
    → get_elem? portal.subscriptions n ≡ some s
    → subscription_by_id s.id portal ≡ some s
unfolding subscription_by_id
keyed zero s e =
    subst (λ o. (elim o [ none ↦ none | some x ↦ subscription_by_id x.id portal ]) ≡ o) e refl
keyed (suc zero) s e =
    subst (λ o. (elim o [ none ↦ none | some x ↦ subscription_by_id x.id portal ]) ≡ o) e refl
keyed (suc (suc n)) s e = cc

session_found : session_by_token "tok" portal ≡ some session
unfolding session_by_token
session_found = refl

other_found : subscription_by_id "sub" portal ≡ some (subscription SubscriptionStatus.active)
unfolding subscription_by_id
other_found = refl

execute_action_own_example :
    subscription_by_id "sub" (execute_action "tok" "PAUSE_SUBSCRIPTION" nothing_more portal).1
    ≡ some (subscription SubscriptionStatus.active)
execute_action_own_example =
    execute_action_own "tok" "PAUSE_SUBSCRIPTION" nothing_more portal "sub" {session = session}
      keyed session_found other_found (λ e. cc)

execute_action_moves_example :
    (t : Subscription) × (subscription_by_id "sub"
        (execute_action "tok" "CANCEL_SUBSCRIPTION" nothing_more portal).1
      ≡ some t)
    × IsMove SubscriptionStatus.active t.status
execute_action_moves_example =
    execute_action_moves "tok" "CANCEL_SUBSCRIPTION" nothing_more portal "sub" keyed other_found

addressed :
    find (is_addressed "m" (to_lower (trim " Ada@Example.com"))) state.customers ≡ some customer
unfolding find trim to_lower skip_spaces
addressed = refl

merchant_found : merchant_by_id "m" state ≡ some merchant
unfolding merchant_by_id
merchant_found = refl

require_session-request_login_example :
    (require_session "random"
      (record (request_login " Ada@Example.com" "m" PortalMode.live state).1 { now = 6000 })).0
    ≡ (if ltb (5000 + 86400000) 6000
        then err (Error.bad_request "This login link has expired.")
        else ok (record {
          id = state.uuid state.draws;
          merchant_id = "m";
          customer_id = "cust";
          token = "random";
          expires_at = 5000 + 86400000;
          used_at = none;
          mode = PortalMode.live;
        }))
require_session-request_login_example =
    require_session-request_login " Ada@Example.com" "m" PortalMode.live state 6000 addressed
      merchant_found refl

get_subscription_status_counts-occurrences_example :
    (count_of SubscriptionStatus.active (get_subscription_status_counts "m" portal)
      ≡ occurrences status_code SubscriptionStatus.active (statuses_of "m" portal))
    × ((get_subscription_status_counts "m" portal).total ≡ length (statuses_of "m" portal))
get_subscription_status_counts-occurrences_example =
    get_subscription_status_counts-occurrences "m" portal SubscriptionStatus.active

get_payment_analytics-partition_example :
    (length (merchant_payments "m" portal)
      ≡ (get_payment_analytics "m" portal).succeeded_payments
        + ((get_payment_analytics "m" portal).failed_payments
            + ((get_payment_analytics "m" portal).pending_payments
                + (get_payment_analytics "m" portal).refunded_payments)))
    × ((get_payment_analytics "m" portal).total_payments ≡ length (merchant_payments "m" portal))
    × ((get_payment_analytics "m" portal).success_rate ≤ 10000)
    × ((get_payment_analytics "m" portal).recovery_rate ≤ 10000)
    × ((get_payment_analytics "m" portal).revenue_last30_days
        ≤ (get_payment_analytics "m" portal).total_revenue)
get_payment_analytics-partition_example = get_payment_analytics-partition "m" portal

get_plan_breakdown-IsFalling_example :
    IsFalling (get_plan_breakdown "m" portal)
    × All (λ e. e.mrr_share_percent ≤ 10000) (get_plan_breakdown "m" portal)
    × (total_mrr (get_plan_breakdown "m" portal)
        ≡ total_mrr (map (plan_entry "m" portal) (merchant_plans "m" portal)))
get_plan_breakdown-IsFalling_example = get_plan_breakdown-IsFalling "m" portal

-- Ten days of January 1970, and the third of them.
generate_date_buckets_ends_example :
    bucket_loop 40 TrendGranularity.month 0 864000000
    ≡ generate_date_buckets 0 864000000 TrendGranularity.month
generate_date_buckets_ends_example =
    generate_date_buckets_ends 0 864000000 40 TrendGranularity.month (omega arith)

generate_date_buckets-day_example :
    is_bucket 3 (generate_date_buckets 0 864000000 TrendGranularity.day) ≡ true
generate_date_buckets-day_example =
    generate_date_buckets-day 0 864000000 3 (omega arith) (omega arith)
