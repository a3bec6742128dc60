-- ===== src/Renewal/Retry.antt =====
-- The retry of a failed payment: `processRetry` of src/dunning/dunning.service.ts, which
-- src/dunning/dunning.processor.ts calls for each job of the queue.
use subscription_billing_eng.Prelude.{ℕ, ◌+◌, String, none, some, ltb, ◌==◌, length, if◌then◌else◌}
use subscription_billing_eng.Entities.{
  Subscription, SubscriptionStatus, same_status, RecoveredViaChannel,
}
use subscription_billing_eng.World.{
  Action, ok, pure, modify, when, ◌>>◌, save_subscription, DunningJob,
}
use subscription_billing_eng.Subscriptions.Service.{transition_status}
use subscription_billing_eng.Dunning.Schedule.{
  dunning_delays_ms, subscription_by_id, schedule_retry, suspend_subscription,
}
use subscription_billing_eng.Renewal.Cycle.{bill_subscription, is_in_dunning}

-- What follows an attempt that left the subscription unpaid.
unfoldable pub next_attempt : String → Subscription → ℕ → Action (Unit {0})
next_attempt id s attempt_number =
    if ltb attempt_number (length dunning_delays_ms)
    then (when (attempt_number == 2)
          (transition_status s SubscriptionStatus.grace_period >> pure tt)
        >> schedule_retry id (attempt_number + 1))
    else suspend_subscription id

-- The second half of `processRetry`: the row is read again.
unfoldable pub after_billing : String → ℕ → Action (Unit {0})
after_billing id attempt_number w = elim (subscription_by_id id w) [
  | none ↦ (ok tt, w)
  | some s ↦
      if same_status s.status SubscriptionStatus.active
      then (ok tt, w)
      else next_attempt id s attempt_number w
]

-- The charge of an attempt: it is counted first.
unfoldable pub attempt : String → Subscription → ℕ → Action (Unit {0})
attempt id s attempt_number = do
  let counted = record s { dunning_attempt_count = attempt_number }
  modify (save_subscription counted)
  bill_subscription counted (some RecoveredViaChannel.automatic)
  after_billing id attempt_number

-- `processRetry`.
unfoldable pub process_retry : String → ℕ → Action (Unit {0})
process_retry id attempt_number w = elim (subscription_by_id id w) [
  | none ↦ (ok tt, w)
  | some s ↦ if is_in_dunning s.status then attempt id s attempt_number w else (ok tt, w)
]

-- DunningProcessor.process.
unfoldable pub process_job : DunningJob → Action (Unit {0})
process_job job = process_retry job.subscription_id job.attempt_number
