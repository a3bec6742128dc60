-- ===== src/Dunning/Schedule.antt =====
-- The scheduling half of src/dunning/dunning.service.ts.
use subscription_billing_eng.Prelude.{
  ℕ, ◌+◌, ◌-◌, ◌*◌, ◌/◌, String, Option, none, some, List, [], ◌∷◌, str_eq, ltb, length, get_elem?,
  or_else, if◌then◌else◌,
}
use subscription_billing_eng.Prelude.Table.{find}
use subscription_billing_eng.Entities.{Subscription, SubscriptionStatus, EventData}
use subscription_billing_eng.World.{World, Action, ok, pure, modify, ◌>>◌, enqueue_dunning}
use subscription_billing_eng.Events.{emit}
use subscription_billing_eng.Events.DomainEvent
use subscription_billing_eng.Chaos.{resolve_dunning_delay}
use subscription_billing_eng.Subscriptions.Service.{transition_status, subscription_event}

-- DUNNING_DELAYS_MS: one day, three days, a week.
abbrev pub dunning_delays_ms : List ℕ
dunning_delays_ms = 86400000 ∷ 259200000 ∷ 604800000 ∷ []

-- `where: { id }`.
unfoldable pub subscription_by_id : String → World → Option Subscription
unfolding find
subscription_by_id id w = find (λ s. str_eq s.id id) w.subscriptions

-- `suspendSubscription`.
unfoldable pub suspend_subscription : String → Action (Unit {0})
unfolding subscription_by_id
suspend_subscription id w = elim (subscription_by_id id w) [
  | none ↦ (ok tt, w)
  | some s ↦ (transition_status s SubscriptionStatus.suspended >> pure tt) w
]

-- `Math.round(delay / 3600000)`.
abbrev delay_hours : ℕ → ℕ
delay_hours delay = (2 * delay + 3600000) / 7200000

-- The job and the event of an attempt that is within the limit.
unfoldable pub schedule_attempt : String → ℕ → ℕ → World → World
unfolding subscription_by_id
schedule_attempt id attempt_number default_delay w = elim (subscription_by_id id w) [
  | none ↦
      enqueue_dunning
        (record { subscription_id = id; attempt_number = attempt_number; delay = default_delay }) w
  | some s ↦
      let delay = resolve_dunning_delay s.merchant_id default_delay w in
      emit DomainEvent.retry_scheduled
        (subscription_event s.merchant_id s
          (EventData.retry_scheduled id attempt_number delay (delay_hours delay)))
        (enqueue_dunning
          (record { subscription_id = id; attempt_number = attempt_number; delay = delay }) w)
]

-- `scheduleRetry`, for attempts numbered from 1.
unfoldable pub schedule_retry : String → ℕ → Action (Unit {0})
unfolding suspend_subscription
schedule_retry id attempt_number =
    if ltb (length dunning_delays_ms) attempt_number
    then suspend_subscription id
    else modify (
        schedule_attempt id attempt_number
          (or_else (get_elem? dunning_delays_ms (attempt_number - 1)) 0))

-- `onPaymentFailed`.
unfoldable pub on_payment_failed : String → Action (Unit {0})
on_payment_failed id = schedule_retry id 1
