-- ===== src/Tests/Billing.antt =====
-- Renewals and retries, at a subscription of each status.
use subscription_billing_eng.Prelude.{ℕ, ◌≡◌, refl, Bool, true, false, none, some, [], ◌∷◌, str_eq}
use subscription_billing_eng.Prelude.Table.{find, save}
use subscription_billing_eng.Entities.{Subscription, SubscriptionStatus, Payment}
use subscription_billing_eng.World.{
  World, ok, err, save_subscription, insert_invoice, insert_payment,
}
use subscription_billing_eng.Customers.{find_customer}
use subscription_billing_eng.Invoices.{create_invoice, new_invoice}
use subscription_billing_eng.Payments.Monnify.{charge, is_configured}
use subscription_billing_eng.Plans.{is_plan}
use subscription_billing_eng.Billing.Proration.{get_interval_days}
use subscription_billing_eng.Payments.Service.{charge_invoice, charge_with_token, settled, outcome}
use subscription_billing_eng.Payments.Charges.{IsTried, charge_invoice-IsTried}
use subscription_billing_eng.Subscriptions.StateMachine.{transition_error}
use subscription_billing_eng.Dunning.Schedule.{subscription_by_id}
use subscription_billing_eng.Dunning.Queue.{retry_job}
use subscription_billing_eng.Renewal.Cycle.{bill_subscription, renewal_invoice, renewed}
use subscription_billing_eng.Renewal.Outcomes.{billed_success-writes, billed_failure-active, marked}
use subscription_billing_eng.Renewal.Retry.{process_retry}
use subscription_billing_eng.Renewal.PaidRetries.{
  counted, AttemptCharge, billed, paid_retry_repeats, failed_retry_stops,
}
use subscription_billing_eng.Prelude.{foldl}
use subscription_billing_eng.Subscriptions.Service.{find_due_for_billing}
use subscription_billing_eng.Renewal.Cycle.{process_billing_cycles}
use subscription_billing_eng.Renewal.Batch.{bill_one, process_billing_cycles-bill_one}
use subscription_billing_eng.Invoices.{is_invoice}
use subscription_billing_eng.Customers.{is_customer}
use subscription_billing_eng.Payments.Service.{create_checkout}
use subscription_billing_eng.Payments.Checkouts.{IsAnswered, create_checkout-IsAnswered}
use subscription_billing_eng.Subscriptions.StateMachine.Graph.{IsMove}
use subscription_billing_eng.Renewal.Reachability.{process_retry_moves}
use subscription_billing_eng.Tests.Fixtures.{customer}
use subscription_billing_eng.Tests.Fixtures.{world, subscription, basic_plan, invoice}

abbrev active : Subscription
active = subscription SubscriptionStatus.active

abbrev past_due : Subscription
past_due = subscription SubscriptionStatus.past_due

abbrev paying : World
paying = world true SubscriptionStatus.active

abbrev failing : World
failing = world false SubscriptionStatus.active

abbrev owing_paying : World
owing_paying = world true SubscriptionStatus.past_due

abbrev owing_failing : World
owing_failing = world false SubscriptionStatus.past_due

plan_found : find (is_plan "m" "plan") paying.plans ≡ some basic_plan
unfolding find
plan_found = refl

owing_found : subscription_by_id "sub" owing_paying ≡ some past_due
unfolding subscription_by_id
owing_found = refl

owing_failing_found : subscription_by_id "sub" owing_failing ≡ some past_due
unfolding subscription_by_id
owing_failing_found = refl

abbrev paid_payment : Payment
paid_payment = (charge_with_token invoice paying).0

invoice_charged : (charge_invoice invoice paying).0 ≡ ok paid_payment
unfolding charge_invoice find_customer find
invoice_charged = refl

charge_invoice-IsTried_example :
    (find (λ x. str_eq x.id paid_payment.id) (charge_invoice invoice paying).1.payments
      ≡ some paid_payment)
    × IsTried invoice 5000 paid_payment
charge_invoice-IsTried_example = charge_invoice-IsTried invoice paying invoice_charged

-- What the charge of a renewal answers.
abbrev answer : Subscription → World → Payment
answer s w =
    (charge_with_token (renewal_invoice basic_plan s w).0 (renewal_invoice basic_plan s w).1).0

renewal_charged :
    (paid : Bool) (status : SubscriptionStatus)
    → (charge_invoice
        (renewal_invoice basic_plan (subscription status) (world paid status)).0
        (renewal_invoice basic_plan (subscription status) (world paid status)).1).0
      ≡ ok (answer (subscription status) (world paid status))
unfolding charge_invoice find_customer find renewal_invoice create_invoice new_invoice
    insert_invoice
renewal_charged paid status = refl

renewal_outcome :
    (paid : Bool) (status : SubscriptionStatus)
    → (answer (subscription status) (world paid status)).status ≡ outcome paid
unfolding charge_with_token settled charge renewal_invoice create_invoice new_invoice insert_invoice
    insert_payment is_configured
renewal_outcome paid status = refl

billed_success-writes_example :
    ((bill_subscription active none paying).0 ≡ ok tt)
    × ((bill_subscription active none paying).1.subscriptions
        ≡ save
            (λ x. x.id)
            (record active {
              current_period_start = 5000;
              current_period_end = 2592005000;
              dunning_attempt_count = 0;
            })
            paying.subscriptions)
    × ((bill_subscription active none paying).1.dunning_queue ≡ [])
    × ((bill_subscription active none paying).1.chaos_rules ≡ [])
unfolding get_interval_days
billed_success-writes_example =
    billed_success-writes active none paying plan_found refl
      (renewal_charged true SubscriptionStatus.active)
      (renewal_outcome true SubscriptionStatus.active)

abbrev failed_world : World
failed_world =
    marked active none failing plan_found refl (renewal_charged false SubscriptionStatus.active)
      (renewal_outcome false SubscriptionStatus.active)

billed_failure-active_example :
    ((bill_subscription active none failing).0 ≡ ok tt)
    × ((bill_subscription active none failing).1.subscriptions
        ≡ save (λ x. x.id) past_due failing.subscriptions)
    × ((bill_subscription active none failing).1.dunning_queue
        ≡ retry_job "sub" 1 (save_subscription past_due failed_world) ∷ [])
billed_failure-active_example =
    billed_failure-active active none failing plan_found refl
      (renewal_charged false SubscriptionStatus.active)
      (renewal_outcome false SubscriptionStatus.active) refl

-- The payment of a retry.
abbrev retry_answer : ℕ → World → Payment
retry_answer n w = answer (counted past_due n) (save_subscription (counted past_due n) w)

retry_charged :
    (paid : Bool) (n : ℕ)
    → AttemptCharge basic_plan past_due n
        (world paid SubscriptionStatus.past_due)
        (retry_answer n (world paid SubscriptionStatus.past_due))
unfolding charge_invoice find_customer find renewal_invoice create_invoice new_invoice
    insert_invoice save_subscription
retry_charged paid n = refl

retry_outcome :
    (paid : Bool) (n : ℕ)
    → (retry_answer n (world paid SubscriptionStatus.past_due)).status ≡ outcome paid
unfolding charge_with_token settled charge renewal_invoice create_invoice new_invoice insert_invoice
    insert_payment is_configured save_subscription
retry_outcome paid n = refl

abbrev first_billed : World
first_billed = billed "sub" 1 owing_paying owing_found refl plan_found (retry_charged true 1)

paid_retry_repeats_example :
    ((process_retry "sub" 1 owing_paying).0 ≡ ok tt)
    × ((process_retry "sub" 1 owing_paying).1.dunning_queue ≡ retry_job "sub" 2 first_billed ∷ [])
    × (subscription_by_id "sub" (process_retry "sub" 1 owing_paying).1
        ≡ some (renewed basic_plan 5000 (counted past_due 1)))
paid_retry_repeats_example =
    paid_retry_repeats "sub" 1 owing_paying owing_found refl plan_found (retry_charged true 1)
      (retry_outcome true 1) refl

failed_retry_stops_example :
    ((process_retry "sub" 1 owing_failing).0
      ≡ err (transition_error SubscriptionStatus.past_due SubscriptionStatus.past_due))
    × ((process_retry "sub" 1 owing_failing).1.dunning_queue ≡ [])
    × (subscription_by_id "sub" (process_retry "sub" 1 owing_failing).1 ≡ some (counted past_due 1))
failed_retry_stops_example =
    failed_retry_stops "sub" 1 owing_failing owing_failing_found refl plan_found
      (retry_charged false 1) (retry_outcome false 1)

process_billing_cycles-bill_one_example :
    process_billing_cycles failing ≡ (ok tt, foldl bill_one failing (find_due_for_billing failing))
process_billing_cycles-bill_one_example = process_billing_cycles-bill_one failing

invoice_found : find (is_invoice "m" "inv") paying.invoices ≡ some invoice
unfolding find
invoice_found = refl

customer_found : find (is_customer "m" "cust") paying.customers ≡ some customer
unfolding find
customer_found = refl

create_checkout-IsAnswered_example :
    (p : Payment) × (find (λ x. str_eq x.id p.id) (create_checkout "m" "inv" paying).1.payments
      ≡ some p)
    × (p.invoice_id ≡ "inv")
    × (p.amount ≡ 10000)
    × (p.paid_at ≡ none)
    × IsAnswered (create_checkout "m" "inv" paying).0 p
create_checkout-IsAnswered_example =
    create_checkout-IsAnswered "m" "inv" paying invoice_found customer_found refl

process_retry_moves_example :
    (t : Subscription) × (subscription_by_id "sub" (process_retry "sub" 2 owing_failing).1 ≡ some t)
    × IsMove SubscriptionStatus.past_due t.status
process_retry_moves_example = process_retry_moves "sub" 2 owing_failing "sub" owing_failing_found
