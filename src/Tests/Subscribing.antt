-- ===== src/Tests/Subscribing.antt =====
-- The operations on a subscription, the transition table, and the prorated amounts, at concrete rows.
use subscription_billing_eng.Prelude.{◌+◌, ◌≤◌, ◌≡◌, refl, ap, ◌↔◌, true, false, some, arith}
use subscription_billing_eng.Prelude.Table.{find}
use subscription_billing_eng.Entities.{Subscription, SubscriptionStatus}
use subscription_billing_eng.World.{World, ok, err}
use subscription_billing_eng.Subscriptions.StateMachine.{can_transition, transition_error}
use subscription_billing_eng.Subscriptions.StateMachine.Graph.{Reaches, IsReachable, Reaches-iff}
use subscription_billing_eng.Subscriptions.Service.{is_subscription}
use subscription_billing_eng.Subscriptions.Lifecycle.{
  Operation, perform, perform-ok, perform-refused, perform_atomic, perform_guarded,
}
use subscription_billing_eng.Billing.Proration.{ProrationInput, amount_of, calculate_upgrade}
use subscription_billing_eng.Billing.Proration.Bounds.{upgrade_net}
use subscription_billing_eng.Entities.{Plan}
use subscription_billing_eng.World.{
  insert_subscription, insert_invoice, insert_payment, save_payment,
}
use subscription_billing_eng.Events.{generate_correlation_id}
use subscription_billing_eng.Customers.{find_customer}
use subscription_billing_eng.Plans.{is_plan, find_plan}
use subscription_billing_eng.Invoices.{create_invoice, new_invoice, find_invoice}
use subscription_billing_eng.Payments.Monnify.{create_checkout_session, is_configured}
use subscription_billing_eng.Payments.Service.{create_checkout, new_payment, settle_checkout}
use subscription_billing_eng.Subscriptions.Service.{
  create, CreateSubscriptionDto, CreateSubscriptionResponse, first_invoice,
}
use subscription_billing_eng.Subscriptions.Creation.{IsCreated, create-IsCreated}
use subscription_billing_eng.Tests.Fixtures.{world, subscription}

Reaches-iff_example :
    Reaches SubscriptionStatus.suspended SubscriptionStatus.trialing
    ↔ IsReachable SubscriptionStatus.suspended SubscriptionStatus.trialing
Reaches-iff_example = Reaches-iff SubscriptionStatus.suspended SubscriptionStatus.trialing

abbrev active : World
active = world true SubscriptionStatus.active

active_found :
    find (is_subscription "m" "sub") active.subscriptions
    ≡ some (subscription SubscriptionStatus.active)
unfolding find
active_found = refl

active_pauses : can_transition SubscriptionStatus.active SubscriptionStatus.suspended ≡ true
unfolding can_transition
active_pauses = refl

active_resumes : can_transition SubscriptionStatus.active SubscriptionStatus.active ≡ false
unfolding can_transition
active_resumes = refl

abbrev paused : World
paused = (perform Operation.pausing "m" "sub" "me" active).1

abbrev paused_row : Subscription
paused_row = record (subscription SubscriptionStatus.active) {
  status = SubscriptionStatus.suspended;
  paused_at = some 5000;
}

refused_resume :
    (perform Operation.resuming "m" "sub" "me" active).0
    ≡ err (transition_error SubscriptionStatus.active SubscriptionStatus.active)
refused_resume =
    ap (λ r. r.0)
      (perform-refused Operation.resuming "m" "sub" "me" active active_found active_resumes)

perform_atomic_example : (perform Operation.resuming "m" "sub" "me" active).1 ≡ active
perform_atomic_example = perform_atomic Operation.resuming "m" "sub" "me" active refused_resume

done_pause : (perform Operation.pausing "m" "sub" "me" active).0 ≡ ok paused_row
done_pause = (perform-ok Operation.pausing "m" "sub" "me" active active_found active_pauses).0

perform_guarded_example :
    (s : Subscription) × (find (is_subscription "m" "sub") active.subscriptions ≡ some s)
    × (can_transition s.status SubscriptionStatus.suspended ≡ true)
    × (SubscriptionStatus.suspended ≡ SubscriptionStatus.suspended)
    × (find (is_subscription "m" "sub") paused.subscriptions ≡ some paused_row)
perform_guarded_example = perform_guarded Operation.pausing "m" "sub" "me" active done_pause

-- From 30 to 100 in the middle of ten days.
abbrev upgrade : ProrationInput
upgrade = record {
  current_plan_amount = 3000;
  new_plan_amount = 10000;
  period_start = 0;
  period_end = 864000000;
  change_date = 432000000;
}

upgrade_net_example :
    let r = calculate_upgrade upgrade in
    (r.charge_amount ≤ r.credit_amount + amount_of r.net_amount + 1)
    × (r.credit_amount + amount_of r.net_amount ≤ r.charge_amount + 1)
upgrade_net_example = upgrade_net upgrade (omega arith)

abbrev order : CreateSubscriptionDto
order = record { plan_id = "plan"; customer_id = "cust" }

-- The answer to the order, where a page is made for its first payment.
abbrev ordered : CreateSubscriptionResponse
ordered = record {
  subscription = record (subscription SubscriptionStatus.pending) {
    id = "fresh";
    current_period_start = 5000;
    current_period_end = 5000;
    created_at = 5000;
    correlation_id = some (generate_correlation_id active).0;
  };
  checkout_url = "https://sandbox.sdk.monnify.com/checkout/fresh";
  payment_id = "fresh";
  invoice_id = "fresh";
}

order_answered : (create "m" order "me" active).0 ≡ ok ordered
unfolding create find_plan find_customer find generate_correlation_id insert_subscription
    first_invoice create_invoice new_invoice insert_invoice create_checkout find_invoice new_payment
    insert_payment save_payment settle_checkout create_checkout_session is_configured
order_answered = refl

create-IsCreated_example :
    (p : Plan) × (find (is_plan "m" "plan") active.plans ≡ some p)
    × IsCreated "m" p (create "m" order "me" active).1 ordered
create-IsCreated_example = create-IsCreated "m" order "me" active order_answered
