-- ===== src/Renewal/Cycle.antt =====
-- The billing cycle: src/billing/billing.service.ts.
use Prim.Native.String
use subscription_billing_eng.Prelude.{
  ℕ, ◌+◌, ◌*◌, Bool, false, String, Option, none, some, List, [], ◌∷◌, ◌&&◌, ◌||◌, ltb, or_else,
  if◌then◌else◌,
}
use subscription_billing_eng.Prelude.Table.{find}
use subscription_billing_eng.Entities.{
  Subscription, SubscriptionStatus, same_status, Plan, Invoice, Payment, PaymentStatus,
  same_payment_status, RecoveredViaChannel, EventData,
}
use subscription_billing_eng.World.{
  World, Action, ok, pure, modify, catch, ◌>>=◌, ◌>>◌, save_subscription,
}
use subscription_billing_eng.Events.{emit, DomainEventPayload}
use subscription_billing_eng.Events.DomainEvent
use subscription_billing_eng.Plans.{is_plan}
use subscription_billing_eng.Invoices.{create_invoice, mark_paid, mark_failed}
use subscription_billing_eng.Payments.Service.{charge_invoice}
use subscription_billing_eng.Billing.Proration.{get_interval_days, day_ms}
use subscription_billing_eng.Subscriptions.Service.{
  transition_status, find_due_for_billing, subscription_event,
}
use subscription_billing_eng.Dunning.Schedule.{on_payment_failed}

-- `wasInDunning`.
abbrev pub is_in_dunning : SubscriptionStatus → Bool
is_in_dunning s =
    same_status s SubscriptionStatus.past_due || same_status s SubscriptionStatus.grace_period

-- The subscription after a paid renewal: a new period, and no attempts counted.
unfoldable pub renewed : Plan → ℕ → Subscription → Subscription
renewed plan now s = record s {
  current_period_start = now;
  current_period_end = now + get_interval_days plan.interval plan.custom_interval_days * day_ms;
  dunning_attempt_count = 0;
}

abbrev billing_event : Subscription → String → String → EventData → DomainEventPayload
billing_event s kind id payload = record {
  merchant_id = s.merchant_id;
  aggregate_type = kind;
  aggregate_id = id;
  correlation_id = s.correlation_id;
  body = payload;
}

announce_recovery : Option RecoveredViaChannel → Subscription → Invoice → Payment → World → World
announce_recovery via s i p w =
    emit DomainEvent.payment_recovered
      (billing_event s "payment" p.id (
        EventData.payment_recovered p i (some s)
          (some (or_else via RecoveredViaChannel.automatic))))
      w

unfoldable pub announce_renewal :
    Bool → Option RecoveredViaChannel → Subscription → Invoice → Payment → World → World
unfolding announce_recovery
announce_renewal was_in_dunning via s i p w =
    let w₁ =
      emit DomainEvent.invoice_paid
        (billing_event s "invoice" i.id (EventData.invoice_paid i p (some s))) w in
    let w₂ =
      emit DomainEvent.subscription_renewed
        (subscription_event s.merchant_id s (EventData.subscription_renewed s i)) w₁ in
    if was_in_dunning then announce_recovery via s i p w₂ else w₂

-- The branch of a payment that succeeded.
unfoldable pub settle_success :
    Bool → Option RecoveredViaChannel → Plan → Subscription → Invoice → Payment → World → World
unfolding announce_renewal
settle_success was_in_dunning via plan s i p w =
    let (paid, w₁) = mark_paid i w in
    let s' = renewed plan w₁.now s in
    announce_renewal was_in_dunning via s' paid p (save_subscription s' w₁)

-- The branch of a payment that failed.
unfoldable pub settle_failure : Subscription → Invoice → Action (Unit {0})
settle_failure s i = do
  modify (λ w. (mark_failed i w).1)
  updated ← transition_status s SubscriptionStatus.past_due
  on_payment_failed updated.id

-- The test of the payment's status.
unfoldable pub settle :
    Bool → Option RecoveredViaChannel → Plan → Subscription → Invoice → Payment → Action (Unit {0})
settle was_in_dunning via plan s i p =
    if same_payment_status p.status PaymentStatus.succeeded
    then modify (settle_success was_in_dunning via plan s i p)
    else settle_failure s i

unfoldable pub renewal_invoice : Plan → Subscription → World → Invoice × World
renewal_invoice plan s = create_invoice (record {
  merchant_id = s.merchant_id;
  customer_id = s.customer_id;
  subscription_id = some s.id;
  items =
      record {
        description = String.◌++◌ plan.name " subscription";
        quantity = 1;
        unit_amount = plan.amount;
      }
      ∷ [];
  currency = some plan.currency;
})

-- From the invoice on.
unfoldable pub charge_renewal :
    Bool → Option RecoveredViaChannel → Plan → Subscription → Action (Unit {0})
unfolding renewal_invoice
charge_renewal was_in_dunning via plan s = do
  i ← λ w. let (i, w') = renewal_invoice plan s w in (ok i, w')
  p ← charge_invoice i
  settle was_in_dunning via plan s i p

-- A trial that has not ended.
abbrev pub in_trial : Subscription → ℕ → Bool
in_trial s now =
    same_status s.status SubscriptionStatus.trialing
    && elim s.trial_ends_at [ none ↦ false | some t ↦ ltb now t ]

-- The end of a trial activates the subscription.
unfoldable pub end_trial : Subscription → Action Subscription
end_trial s =
    if same_status s.status SubscriptionStatus.trialing
    then transition_status s SubscriptionStatus.active
    else pure s

-- `billSubscription`.
unfoldable pub bill_subscription : Subscription → Option RecoveredViaChannel → Action (Unit {0})
bill_subscription s via w = elim (find (is_plan s.merchant_id s.plan_id) w.plans) [
  | none ↦ (ok tt, w)
  | some plan ↦
      if in_trial s w.now
      then (ok tt, w)
      else (end_trial s >>= charge_renewal (is_in_dunning s.status) via plan) w
]

-- The loop of `processBillingCycles`: what one subscription throws does not stop the others.
unfoldable pub bill_all : List Subscription → Action (Unit {0})
bill_all [] = pure tt
bill_all (s ∷ rest) = catch (bill_subscription s none) (λ e. pure tt) >> bill_all rest

unfoldable pub process_billing_cycles : Action (Unit {0})
process_billing_cycles w = bill_all (find_due_for_billing w) w
