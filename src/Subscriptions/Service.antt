-- ===== src/Subscriptions/Service.antt =====
-- The operations on a subscription: src/subscriptions/subscriptions.service.ts. The identifier of
-- the plan is what `plan` joins on, so a plan that is removed is an absent relation.
use Prim.Native.String
use subscription_billing_eng.Prelude.{
  ℕ, Bool, String, none, some, List, [], ◌∷◌, ◌&&◌, ◌||◌, str_eq, leb, ltb, filter, if◌then◌else◌,
}
use subscription_billing_eng.Prelude.Table.{find}
use subscription_billing_eng.Entities.{
  Subscription, SubscriptionStatus, same_status, Plan, Customer, Invoice, AuditAction, AuditLog,
  EventData,
}
use subscription_billing_eng.World.{
  World, Action, Error, ok, pure, gets, or_throw, modify, ◌>>=◌, ◌>>◌, save_subscription,
  insert_subscription, next_id,
}
use subscription_billing_eng.Events.{emit, log, generate_correlation_id, DomainEventPayload}
use subscription_billing_eng.Events.DomainEvent
use subscription_billing_eng.Plans.{find_plan, is_live}
use subscription_billing_eng.Customers.{find_customer}
use subscription_billing_eng.Invoices.{create_invoice}
use subscription_billing_eng.Payments.Service.{create_checkout}
use subscription_billing_eng.Billing.Proration.{
  ProrationInput, ProrationResult, calculate_upgrade, calculate_downgrade,
}
use subscription_billing_eng.Subscriptions.StateMachine.{assert_transition}

-- `where: { id, merchantId }`.
abbrev pub is_subscription : String → String → Subscription → Bool
is_subscription m id s = str_eq s.id id && str_eq s.merchant_id m

-- `findOne`.
unfoldable pub find_subscription : String → String → Action Subscription
find_subscription m id w =
    or_throw (find (is_subscription m id) w.subscriptions)
      (Error.not_found "Subscription not found") w

abbrev pub subscription_log : String → String → AuditAction → String → AuditLog
subscription_log m actor action id = record {
  merchant_id = m;
  actor = actor;
  action = action;
  resource_type = "subscription";
  resource_id = some id;
}

abbrev pub subscription_event : String → Subscription → EventData → DomainEventPayload
subscription_event m s payload = record {
  merchant_id = m;
  aggregate_type = "subscription";
  aggregate_id = s.id;
  correlation_id = s.correlation_id;
  body = payload;
}

-- `emitUpdated`.
unfoldable pub emit_updated : String → Subscription → String → AuditAction → World → World
emit_updated m s actor action w = log (subscription_log m actor action s.id) (
    emit DomainEvent.subscription_updated (subscription_event m s (EventData.subscription_only s))
      w)

-- What `pause`, `resume` and `reactivate` share: guard, change, save, announce.
abbrev change_status :
    SubscriptionStatus
    → (ℕ → Subscription → Subscription)
    → AuditAction
    → String
    → String
    → String
    → Action Subscription
change_status to change action m id actor = do
  s ← find_subscription m id
  assert_transition s.status to
  now ← gets (λ w. w.now)
  let updated = change now (record s { status = to })
  modify (save_subscription updated)
  modify (emit_updated m updated actor action)
  pure updated

unfoldable pub pause : String → String → String → Action Subscription
pause =
    change_status SubscriptionStatus.suspended (λ now s. record s { paused_at = some now })
      AuditAction.pause

unfoldable pub resume : String → String → String → Action Subscription
resume =
    change_status SubscriptionStatus.active (λ now s. record s { paused_at = none })
      AuditAction.resume

unfoldable pub reactivate : String → String → String → Action Subscription
reactivate =
    change_status SubscriptionStatus.active (λ now s. record s { cancelled_at = none })
      AuditAction.update

unfoldable pub cancel : String → String → String → Action Subscription
cancel m id actor = do
  s ← find_subscription m id
  assert_transition s.status SubscriptionStatus.cancelled
  now ← gets (λ w. w.now)
  let updated = record s { status = SubscriptionStatus.cancelled; cancelled_at = some now }
  modify (save_subscription updated)
  modify (
      emit DomainEvent.subscription_cancelled
        (subscription_event m updated (EventData.subscription_only updated)))
  modify (log (subscription_log m actor AuditAction.cancel id))
  pure updated

-- `transitionStatus`: guarded, saved, not announced.
unfoldable pub transition_status : Subscription → SubscriptionStatus → Action Subscription
transition_status s to = do
  assert_transition s.status to
  let updated = record s { status = to }
  modify (save_subscription updated)
  pure updated

-- The plan that the subscription's relation loads; its absence is a read of `undefined.amount`.
abbrev current_plan : Subscription → Action Plan
current_plan s w =
    or_throw (find (λ p. is_live p && str_eq p.id s.plan_id) w.plans) Error.type_error w

-- The proration that `changePlan` answers, of the period at the time of the change.
unfoldable pub prorate : Plan → Plan → Subscription → ℕ → ProrationResult
prorate current new s now =
    let input : ProrationInput = record {
      current_plan_amount = current.amount;
      new_plan_amount = new.amount;
      period_start = s.current_period_start;
      period_end = s.current_period_end;
      change_date = now;
    } in
    if leb current.amount new.amount then calculate_upgrade input else calculate_downgrade input

-- `changePlan`. The entity has its plan loaded, so what a save writes for the assigned identifier is
-- the library's to say; the entity that is announced and answered has the assigned one.
unfoldable pub change_plan :
    String → String → String → String → Action (Subscription × ProrationResult)
unfolding prorate
change_plan m id new_plan_id actor = do
  s ← find_subscription m id
  new ← find_plan m new_plan_id
  current ← current_plan s
  now ← gets (λ w. w.now)
  written ← gets (λ w. w.plan_column current.id new.id)
  let updated = record s { plan_id = new.id }
  modify (save_subscription (record s { plan_id = written }))
  modify (emit_updated m updated actor AuditAction.update)
  pure (updated, prorate current new s now)

-- `findDueForBilling`.
unfoldable pub is_due : ℕ → Subscription → Bool
is_due now s =
    leb s.current_period_end now
    && (same_status s.status SubscriptionStatus.active
        || same_status s.status SubscriptionStatus.trialing)

unfoldable pub find_due_for_billing : World → List Subscription
unfolding is_due filter
find_due_for_billing w = filter (is_due w.now) w.subscriptions

pub record CreateSubscriptionDto : Type 0 where
  pub plan_id : String
  pub customer_id : String

pub record CreateSubscriptionResponse : Type 0 where
  pub subscription : Subscription
  pub checkout_url : String
  pub payment_id : String
  pub invoice_id : String

abbrev pub new_subscription : String → Plan → Customer → String → World → Subscription
new_subscription m plan customer correlation w = record {
  id = next_id w;
  merchant_id = m;
  customer_id = customer.id;
  plan_id = plan.id;
  status = SubscriptionStatus.pending;
  trial_ends_at = none;
  current_period_start = w.now;
  current_period_end = w.now;
  cancelled_at = none;
  paused_at = none;
  dunning_attempt_count = 0;
  correlation_id = some correlation;
  cancel_reason = none;
  created_at = w.now;
}

-- The first invoice: nothing is charged where the plan has a trial.
unfoldable pub first_invoice : String → Plan → Customer → Subscription → World → Invoice × World
first_invoice m plan customer s =
    let has_trial = ltb 0 plan.trial_days in
    create_invoice (record {
      merchant_id = m;
      customer_id = customer.id;
      subscription_id = some s.id;
      items =
          record {
            description =
                if has_trial
                then String.◌++◌ plan.name " — payment method setup"
                else String.◌++◌ plan.name " subscription";
            quantity = 1;
            unit_amount = if has_trial then 0 else plan.amount;
          }
          ∷ [];
      currency = some plan.currency;
    })

unfoldable pub announce_created :
    String → Subscription → Customer → Plan → Invoice → String → World → World
announce_created m s customer plan i correlation w =
    emit DomainEvent.subscription_created
      (record {
        merchant_id = m;
        aggregate_type = "subscription";
        aggregate_id = s.id;
        correlation_id = some correlation;
        body = EventData.subscription_created s customer plan i.id;
      })
      (emit DomainEvent.invoice_generated
        (record {
          merchant_id = m;
          aggregate_type = "invoice";
          aggregate_id = i.id;
          correlation_id = some correlation;
          body = EventData.invoice_generated i s;
        })
        w)

unfoldable pub create : String → CreateSubscriptionDto → String → Action CreateSubscriptionResponse
unfolding first_invoice announce_created
create m dto actor = do
  plan ← find_plan m dto.plan_id
  customer ← find_customer m dto.customer_id
  correlation ← λ w. let (c, w') = generate_correlation_id w in (ok c, w')
  s ← gets (new_subscription m plan customer correlation)
  modify (insert_subscription s)
  i ← λ w. let (i, w') = first_invoice m plan customer s w in (ok i, w')
  checkout ← create_checkout m i.id
  modify (announce_created m s customer plan i correlation)
  modify (log (subscription_log m actor AuditAction.create s.id))
  pure (record {
    subscription = s;
    checkout_url = checkout.0;
    payment_id = checkout.1;
    invoice_id = i.id;
  })
