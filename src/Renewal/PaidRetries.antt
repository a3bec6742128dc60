-- ===== src/Renewal/PaidRetries.antt =====
-- What `processRetry` of src/dunning/dunning.service.ts does after the charge of its attempt.
use subscription_billing_eng.Prelude.{
  ℕ, ◌≤◌, false, String, some, ◌∷◌, ◌≡◌, refl, arith, ap, ◌∙◌, str_eq,
}
use subscription_billing_eng.Prelude.Table.{find, save}
use subscription_billing_eng.Entities.{
  Subscription, SubscriptionStatus, same_status, Plan, Payment, PaymentStatus, RecoveredViaChannel,
}
use subscription_billing_eng.World.{World, ok, err, save_subscription}
use subscription_billing_eng.Plans.{is_plan}
use subscription_billing_eng.Payments.Service.{charge_invoice}
use subscription_billing_eng.Subscriptions.StateMachine.{can_transition, transition_error}
use subscription_billing_eng.Dunning.Schedule.{
  subscription_by_id, schedule_retry, suspend_subscription,
}
use subscription_billing_eng.Dunning.Queue.{
  retry_job, schedule_retry_within, schedule_retry_past, by_id-save,
}
use subscription_billing_eng.Renewal.Cycle.{bill_subscription, renewal_invoice, renewed}
use subscription_billing_eng.Renewal.Outcomes.{billed_success-writes, billed_failure-in_dunning}
use subscription_billing_eng.Renewal.Retry.{process_retry, attempt, after_billing, next_attempt}

-- The subscription with the attempt counted, as it is billed.
abbrev pub counted : Subscription → ℕ → Subscription
counted s n = record s { dunning_attempt_count = n }

-- What the charge of the attempt answers.
abbrev pub AttemptCharge : Plan → Subscription → ℕ → World → Payment → Type 0
AttemptCharge plan s n w p =
    let (i, w') = renewal_invoice plan (counted s n) (save_subscription (counted s n) w) in
    (charge_invoice i w').0 ≡ ok p

pub by_id-cong :
    (id : String) (v w : World)
    → v.subscriptions ≡ w.subscriptions
    → subscription_by_id id v ≡ subscription_by_id id w
unfolding subscription_by_id
by_id-cong id v w e = ap (λ l. find (λ s. str_eq s.id id) l) e

next_attempt_first :
    (id : String) (s : Subscription) (n : ℕ) (w : World)
    → n ≡ 1
    → next_attempt id s n w ≡ schedule_retry id 2 w
unfolding next_attempt
next_attempt_first id s n w e = ground arith

next_attempt_last :
    (id : String) (s : Subscription) (n : ℕ) (w : World)
    → 3 ≤ n
    → next_attempt id s n w ≡ suspend_subscription id w
unfolding next_attempt
next_attempt_last id s n w e = ground arith

suspend_paid :
    (id : String) (w : World) {s : Subscription}
    → subscription_by_id id w ≡ some s
    → s.status ≡ SubscriptionStatus.past_due
    → ((suspend_subscription id w).0 ≡ ok tt)
      × (subscription_by_id id (suspend_subscription id w).1
          ≡ some (record s { status = SubscriptionStatus.suspended }))
unfolding can_transition
suspend_paid id w found past_due =
    let (fine, row, _) = schedule_retry_past id 4 w (omega arith) found (rw past_due) in
    (unfold schedule_retry in fine, unfold schedule_retry in row)

module _ (id : String) (n : ℕ) (w : World) {s : Subscription} {plan : Plan} {p : Payment}
    (found : subscription_by_id id w ≡ some s) (past_due : s.status ≡ SubscriptionStatus.past_due)
    (has_plan : find (is_plan s.merchant_id s.plan_id) w.plans ≡ some plan)
    (answered : AttemptCharge plan s n w p) where
  -- The state in which the attempt is billed, and the state after that.
  abbrev pub before_billing : World
  before_billing = save_subscription (counted s n) w

  abbrev pub billed : World
  billed = (bill_subscription (counted s n) (some RecoveredViaChannel.automatic) before_billing).1

  not_trialing : same_status s.status SubscriptionStatus.trialing ≡ false
  not_trialing = rw past_due

  plan_kept : find (is_plan s.merchant_id s.plan_id) before_billing.plans ≡ some plan
  unfolding save_subscription
  plan_kept = has_plan

  module _ (succeeded : p.status ≡ PaymentStatus.succeeded) where
    writes :
        ((bill_subscription (counted s n) (some RecoveredViaChannel.automatic) before_billing).0
          ≡ ok tt)
        × (billed.subscriptions
            ≡ save
                (λ x. x.id)
                (renewed plan before_billing.now (counted s n))
                before_billing.subscriptions)
        × (billed.dunning_queue ≡ before_billing.dunning_queue)
        × (billed.chaos_rules ≡ before_billing.chaos_rules)
    unfolding renewed
    writes =
        billed_success-writes (counted s n) (some RecoveredViaChannel.automatic) before_billing
          plan_kept not_trialing answered succeeded

    -- The row that the retry reads again: a new period, and the status of before.
    paid_row : subscription_by_id id billed ≡ some (renewed plan before_billing.now (counted s n))
    paid_row =
        by_id-cong id billed
          (save_subscription (renewed plan before_billing.now (counted s n)) before_billing)
          (unfold save_subscription in writes.1)
        ∙ by_id-save id before_billing (renewed plan before_billing.now (counted s n))
            (by_id-save id w (counted s n) found refl) (unfold renewed in refl)

    retried :
        process_retry id n w
        ≡ next_attempt id (renewed plan before_billing.now (counted s n)) n billed
    unfolding process_retry attempt after_billing renewed
    retried = ground (arith, writes.0, paid_row)

    -- The first retry charges the customer, answers without an error, and queues the second retry: the
    -- paid subscription keeps the status `past_due`.
    pub paid_retry_repeats :
        n ≡ 1
        → ((process_retry id n w).0 ≡ ok tt)
          × ((process_retry id n w).1.dunning_queue ≡ retry_job id 2 billed ∷ w.dunning_queue)
          × (subscription_by_id id (process_retry id n w).1
              ≡ some (renewed plan w.now (counted s n)))
    paid_retry_repeats first =
        let (fine, queued, kept, _, _) = schedule_retry_within id 2 billed (omega arith) in
        let onwards : process_retry id n w ≡ schedule_retry id 2 billed =
          retried
          ∙ next_attempt_first id (renewed plan before_billing.now (counted s n)) n billed first in
        rw onwards (
          fine,
          queued
              ∙ ap (λ q. retry_job id 2 billed ∷ q) (writes.2 ∙ unfold save_subscription in refl),
          by_id-cong id (schedule_retry id 2 billed).1 billed kept
              ∙ (paid_row ∙ unfold save_subscription in refl),
        )

    -- The last retry charges the customer, and then suspends the subscription that was paid.
    paid_retry_suspends :
        3 ≤ n
        → ((process_retry id n w).0 ≡ ok tt)
          × (subscription_by_id id (process_retry id n w).1
              ≡ some (record (renewed plan w.now (counted s n)) {
                status = SubscriptionStatus.suspended;
              }))
    unfolding renewed save_subscription
    paid_retry_suspends last =
        let onwards : process_retry id n w ≡ suspend_subscription id billed =
          retried
          ∙ next_attempt_last id (renewed plan before_billing.now (counted s n)) n billed last in
        rw onwards (suspend_paid id billed paid_row past_due)

  -- A failed retry throws, so no further retry is queued, and the subscription stays past due with
  -- this attempt counted.
  pub failed_retry_stops :
      p.status ≡ PaymentStatus.failed
      → ((process_retry id n w).0 ≡ err (transition_error s.status SubscriptionStatus.past_due))
        × ((process_retry id n w).1.dunning_queue ≡ w.dunning_queue)
        × (subscription_by_id id (process_retry id n w).1 ≡ some (counted s n))
  unfolding process_retry attempt
  failed_retry_stops failed =
      let (thrown, kept, queue) =
        billed_failure-in_dunning (counted s n) (some RecoveredViaChannel.automatic) before_billing
          plan_kept not_trialing answered failed (rw past_due) in
      let onwards : process_retry id n w
          ≡ (err (transition_error s.status SubscriptionStatus.past_due), billed) =
        ground (arith, thrown) in
      rw onwards (
        refl,
        queue ∙ unfold save_subscription in refl,
        by_id-cong id billed before_billing kept ∙ by_id-save id w (counted s n) found refl,
      )
