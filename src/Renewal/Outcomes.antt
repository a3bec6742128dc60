-- ===== src/Renewal/Outcomes.antt =====
-- The outcomes of one billing of a subscription: `billSubscription` of src/billing/billing.service.ts.
use subscription_billing_eng.Prelude.{
  ◌+◌, ◌*◌, true, false, Option, some, ◌∷◌, ◌≡◌, refl, arith, ap, ◌∙◌,
}
use subscription_billing_eng.Prelude.Table.{find, save}
use subscription_billing_eng.Entities.{
  Subscription, SubscriptionStatus, same_status, Plan, Invoice, Payment, PaymentStatus,
  RecoveredViaChannel,
}
use subscription_billing_eng.World.{World, ok, err, save_subscription, save_invoice, insert_invoice}
use subscription_billing_eng.Events.Frame.{emit-subscriptions, emit-dunning_queue, emit-chaos_rules}
use subscription_billing_eng.Plans.{is_plan}
use subscription_billing_eng.Billing.Proration.{get_interval_days}
use subscription_billing_eng.Invoices.{create_invoice, mark_paid, mark_failed}
use subscription_billing_eng.Payments.Service.{charge_invoice}
use subscription_billing_eng.Payments.Charges.{
  charge-subscriptions, charge-dunning_queue, charge-now, charge-chaos_rules,
}
use subscription_billing_eng.Subscriptions.StateMachine.{
  can_transition, assert_transition, transition_error,
}
use subscription_billing_eng.Subscriptions.Service.{transition_status}
use subscription_billing_eng.Dunning.Schedule.{on_payment_failed, schedule_retry}
use subscription_billing_eng.Dunning.Queue.{retry_job, schedule_retry_within}
use subscription_billing_eng.Renewal.Cycle.{
  bill_subscription, charge_renewal, settle, settle_success, settle_failure, renewal_invoice,
  renewed, end_trial, announce_renewal, is_in_dunning,
}

-- The invoice that a billing makes, and what the charge of it answers.
abbrev pub billed_invoice : Plan → Subscription → World → Invoice
billed_invoice plan s w = (renewal_invoice plan s w).0

abbrev pub charged : Plan → Subscription → World → World
charged plan s w = (charge_invoice (renewal_invoice plan s w).0 (renewal_invoice plan s w).1).1

module _ (s : Subscription) (via : Option RecoveredViaChannel) (w : World) {plan : Plan}
    {p : Payment} (has_plan : find (is_plan s.merchant_id s.plan_id) w.plans ≡ some plan)
    (not_trialing : same_status s.status SubscriptionStatus.trialing ≡ false)
    (answered : (charge_invoice (renewal_invoice plan s w).0 (renewal_invoice plan s w).1).0
      ≡ ok p) where
  billed :
      bill_subscription s via w
      ≡ settle (is_in_dunning s.status) via plan s (billed_invoice plan s w) p (charged plan s w)
  unfolding bill_subscription end_trial charge_renewal
  billed = ground arith

  charged-now : (charged plan s w).now ≡ w.now
  unfolding renewal_invoice create_invoice insert_invoice
  charged-now = grind (arith, charge-now)

  charged-subscriptions : (charged plan s w).subscriptions ≡ w.subscriptions
  unfolding renewal_invoice create_invoice insert_invoice
  charged-subscriptions = grind (arith, charge-subscriptions)

  charged-dunning_queue : (charged plan s w).dunning_queue ≡ w.dunning_queue
  unfolding renewal_invoice create_invoice insert_invoice
  charged-dunning_queue = grind (arith, charge-dunning_queue)

  charged-chaos_rules : (charged plan s w).chaos_rules ≡ w.chaos_rules
  unfolding renewal_invoice create_invoice insert_invoice
  charged-chaos_rules = grind (arith, charge-chaos_rules)

  module _ (succeeded : p.status ≡ PaymentStatus.succeeded) where
    billed_success : bill_subscription s via w ≡ (
      ok tt,
      settle_success
          (is_in_dunning s.status)
          via
          plan
          s
          (billed_invoice plan s w)
          p
          (charged plan s w),
    )
    unfolding settle
    billed_success = rw (billed, succeeded)

    -- A paid renewal saves the subscription with a period that starts now and is as long as the days
    -- of the plan's interval, and with no attempts counted. All else of the row, its status too, is as
    -- it was. No retry is queued, and no chaos rule changes.
    pub billed_success-writes :
        ((bill_subscription s via w).0 ≡ ok tt)
        × ((bill_subscription s via w).1.subscriptions
            ≡ save
                (λ x. x.id)
                (record s {
                  current_period_start = w.now;
                  current_period_end =
                      w.now + get_interval_days plan.interval plan.custom_interval_days * 86400000;
                  dunning_attempt_count = 0;
                })
                w.subscriptions)
        × ((bill_subscription s via w).1.dunning_queue ≡ w.dunning_queue)
        × ((bill_subscription s via w).1.chaos_rules ≡ w.chaos_rules)
    unfolding settle_success announce_renewal mark_paid save_subscription save_invoice renewed
    billed_success-writes = rw billed_success (
      refl,
      grind (arith, emit-subscriptions, charged-subscriptions, charged-now),
      grind (arith, emit-dunning_queue, charged-dunning_queue),
      grind (arith, emit-chaos_rules, charged-chaos_rules),
    )

  module _ (failed : p.status ≡ PaymentStatus.failed) where
    billed_failure :
        bill_subscription s via w ≡ settle_failure s (billed_invoice plan s w) (charged plan s w)
    unfolding settle
    billed_failure = rw (billed, failed)

    -- A failed renewal of a subscription that is already past due, or in its grace period, throws:
    -- the table has no transition to `past_due` from there. The subscription and the queue of
    -- retries stay as they were.
    pub billed_failure-in_dunning :
        is_in_dunning s.status ≡ true
        → ((bill_subscription s via w).0
            ≡ err (transition_error s.status SubscriptionStatus.past_due))
          × ((bill_subscription s via w).1.subscriptions ≡ w.subscriptions)
          × ((bill_subscription s via w).1.dunning_queue ≡ w.dunning_queue)
    unfolding settle_failure mark_failed save_invoice transition_status assert_transition
        can_transition
    billed_failure-in_dunning dunning =
        rw billed_failure
          (ground arith, grind (arith, charged-subscriptions), grind (arith, charged-dunning_queue))

    -- The state in which the retry of a failed renewal is queued.
    abbrev pub marked : World
    marked = (mark_failed (billed_invoice plan s w) (charged plan s w)).1

    billed_failure-queues :
        s.status ≡ SubscriptionStatus.active
        → bill_subscription s via w
          ≡ schedule_retry s.id 1
              (save_subscription (record s { status = SubscriptionStatus.past_due }) marked)
    unfolding settle_failure transition_status assert_transition can_transition on_payment_failed
    billed_failure-queues active = rw (billed_failure, active)

    -- The first failed renewal of an active subscription makes it past due, and queues its first
    -- retry, once.
    pub billed_failure-active :
        s.status ≡ SubscriptionStatus.active
        → ((bill_subscription s via w).0 ≡ ok tt)
          × ((bill_subscription s via w).1.subscriptions
              ≡ save
                  (λ x. x.id)
                  (record s { status = SubscriptionStatus.past_due })
                  w.subscriptions)
          × ((bill_subscription s via w).1.dunning_queue
              ≡ retry_job s.id 1
                  (save_subscription (record s { status = SubscriptionStatus.past_due }) marked)
                ∷ w.dunning_queue)
    billed_failure-active active =
        let (fine, queued, kept, _, _) =
          schedule_retry_within s.id 1
            (save_subscription (record s { status = SubscriptionStatus.past_due }) marked)
            (omega arith) in
        rw (billed_failure-queues active) (
          fine,
          rw kept (unfold save_subscription mark_failed save_invoice in rw charged-subscriptions),
          queued
              ∙ ap
                  (λ q.
                    retry_job s.id 1
                      (save_subscription (record s { status = SubscriptionStatus.past_due }) marked)
                    ∷ q)
                  (unfold save_subscription mark_failed save_invoice in charged-dunning_queue),
        )
