-- ===== src/Dunning/Queue.antt =====
-- What `scheduleRetry` of src/dunning/dunning.service.ts puts on the queue.
use subscription_billing_eng.Prelude.{
  ℕ, ◌-◌, ◌≤◌, ◌<◌, true, String, some, none, ◌∷◌, ◌≡◌, inl, inr, refl, arith, get_elem?, or_else,
  Option-cases, str_eq,
}
use subscription_billing_eng.Prelude.Table.{find-save, find-holds}
use subscription_billing_eng.World.Frame.{str_eq-join}
use subscription_billing_eng.Entities.{Subscription, SubscriptionStatus}
use subscription_billing_eng.World.{World, DunningJob, ok, enqueue_dunning, save_subscription}
use subscription_billing_eng.Events.Frame.{
  emit-subscriptions, emit-dunning_queue, emit-invoices, emit-payments,
}
use subscription_billing_eng.Chaos.{resolve_dunning_delay}
use subscription_billing_eng.Dunning.Schedule.{
  dunning_delays_ms, subscription_by_id, schedule_retry, schedule_attempt, suspend_subscription,
}
use subscription_billing_eng.Subscriptions.Service.{transition_status}
use subscription_billing_eng.Subscriptions.StateMachine.{can_transition, assert_transition}

-- The delay of an attempt: the table's, unless the merchant's rules shorten it.
abbrev pub attempt_delay : String → ℕ → World → ℕ
attempt_delay id n w =
    let default_delay = or_else (get_elem? dunning_delays_ms (n - 1)) 0 in
    elim (subscription_by_id id w) [
      | none ↦ default_delay
      | some s ↦ resolve_dunning_delay s.merchant_id default_delay w
    ]

abbrev pub retry_job : String → ℕ → World → DunningJob
retry_job id n w = record { subscription_id = id; attempt_number = n; delay = attempt_delay id n w }

-- An attempt within the limit of three is queued, once and with its delay; no subscription, invoice or
-- payment changes.
pub schedule_retry_within :
    (id : String) (n : ℕ) (w : World)
    → n ≤ 3
    → ((schedule_retry id n w).0 ≡ ok tt)
      × ((schedule_retry id n w).1.dunning_queue ≡ retry_job id n w ∷ w.dunning_queue)
      × ((schedule_retry id n w).1.subscriptions ≡ w.subscriptions)
      × ((schedule_retry id n w).1.invoices ≡ w.invoices)
      × ((schedule_retry id n w).1.payments ≡ w.payments)
unfolding schedule_retry schedule_attempt enqueue_dunning
schedule_retry_within id n w h = elim (Option-cases (subscription_by_id id w)) [
  | inl missing ↦ (ground arith, ground arith, ground arith, ground arith, ground arith)
  | inr (s, found) ↦ (
    ground arith,
    grind (arith, emit-dunning_queue),
    grind (arith, emit-subscriptions),
    grind (arith, emit-invoices),
    grind (arith, emit-payments),
  )
]

-- A subscription that is saved under its own identifier is the one that the next search finds.
pub by_id-save :
    (id : String) (w : World) {s : Subscription} (u : Subscription)
    → subscription_by_id id w ≡ some s
    → u.id ≡ s.id
    → subscription_by_id id (save_subscription u w) ≡ some u
unfolding subscription_by_id save_subscription
by_id-save id w {s} u found same =
    find-save (λ x. x.id) (λ x. str_eq x.id id) u w.subscriptions (rw same holds)
      (λ x h. rw same (str_eq-join x.id s.id id h holds))
  where
    holds : str_eq s.id id ≡ true
    holds = find-holds (λ x. str_eq x.id id) w.subscriptions found

-- An attempt past the limit of three suspends the subscription, where the table allows that, and
-- queues nothing.
pub schedule_retry_past :
    (id : String) (n : ℕ) (w : World) {s : Subscription}
    → 3 < n
    → subscription_by_id id w ≡ some s
    → can_transition s.status SubscriptionStatus.suspended ≡ true
    → ((schedule_retry id n w).0 ≡ ok tt)
      × (subscription_by_id id (schedule_retry id n w).1
          ≡ some (record s { status = SubscriptionStatus.suspended }))
      × ((schedule_retry id n w).1.dunning_queue ≡ w.dunning_queue)
unfolding schedule_retry suspend_subscription transition_status assert_transition
schedule_retry_past id n w {s} h found allowed =
    let at_end : schedule_retry id n w
        ≡ (ok tt, save_subscription (record s { status = SubscriptionStatus.suspended }) w) =
      ground arith in
    rw at_end (
      refl,
      by_id-save id w (record s { status = SubscriptionStatus.suspended }) found refl,
      unfold save_subscription in refl,
    )
