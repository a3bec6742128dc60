-- ===== src/Payments/Webhooks/Settlement.antt =====
-- Proofs on `handleSuccessfulTransaction` of src/payments/monnify-webhooks.service.ts: the payment and
-- its subscription.
use text.Mathlib.TextPositions.{eq_refl}
use subscription_billing_eng.Prelude.{
  or_option, Bool, false, String, some, ◌≡◌, ◌≢◌, refl, arith, ap, ◌∙◌, str_eq,
}
use subscription_billing_eng.Prelude.Table.{find, save, find-save}
use subscription_billing_eng.Entities.{
  Payment, PaymentStatus, same_payment_status, Invoice, Subscription, SubscriptionStatus,
}
use subscription_billing_eng.World.{
  World, ok, err, pure, ◌>>=◌, save_payment, save_subscription, save_customer, save_invoice,
  insert_attempt,
}
use subscription_billing_eng.Events.Frame.{emit-payments}
use subscription_billing_eng.Customers.{save_monnify_card_token, find_customer}
use subscription_billing_eng.Invoices.{mark_paid}
use subscription_billing_eng.Subscriptions.StateMachine.{
  can_transition, assert_transition, transition_error,
}
use subscription_billing_eng.Subscriptions.Service.{transition_status, is_subscription}
use subscription_billing_eng.Subscriptions.Lifecycle.{find-save_subscription}
use subscription_billing_eng.Renewal.Cycle.{renewed}
use subscription_billing_eng.Payments.Monnify.{get_transaction_card_token}
use subscription_billing_eng.Payments.Webhooks.Resolve.{MonnifyWebhookPayload, resolve_payment}
use subscription_billing_eng.Payments.Webhooks.Handlers.{
  record_event, card_token_of, persist_card_token, finish, log_attempt, activate,
  settle_subscription, settle_invoice, settle_payment, handle_successful_transaction, with_period,
  succeeded_payment,
}

finish-payments :
    (p : MonnifyWebhookPayload) (key : String) (x : Payment) (w : World)
    → (finish p key x w).1.payments ≡ w.payments
unfolding finish persist_card_token card_token_of get_transaction_card_token save_monnify_card_token
    find_customer save_customer record_event
finish-payments p key x w = grind arith

pub finish-subscriptions :
    (p : MonnifyWebhookPayload) (key : String) (x : Payment) (w : World)
    → (finish p key x w).1.subscriptions ≡ w.subscriptions
unfolding finish persist_card_token card_token_of get_transaction_card_token save_monnify_card_token
    find_customer save_customer record_event
finish-subscriptions p key x w = grind arith

transition_status-payments :
    (s : Subscription) (t : SubscriptionStatus) (w : World)
    → (transition_status s t w).1.payments ≡ w.payments
unfolding transition_status assert_transition save_subscription
transition_status-payments s t w = ground arith

settle_subscription-payments :
    (x : Payment) (w : World) → (settle_subscription x w).1.payments ≡ w.payments
unfolding settle_subscription activate save_subscription
settle_subscription-payments x w = grind (arith, transition_status-payments)

settle_invoice-payments :
    (p : MonnifyWebhookPayload) (key : String) (f : Bool) (x : Payment) (i : Invoice) (w : World)
    → (settle_invoice p key f x i w).1.payments ≡ w.payments
unfolding settle_invoice mark_paid save_invoice
settle_invoice-payments p key f x i w =
    grind (arith, finish-payments, settle_subscription-payments, emit-payments)

settle_payment-payments :
    (p : MonnifyWebhookPayload) (key : String) (x : Payment) (w : World)
    → (settle_payment p key x w).1.payments
      ≡ save (λ y. y.id) (succeeded_payment p x w.now) w.payments
unfolding settle_payment log_attempt save_payment insert_attempt
settle_payment-payments p key x w = grind (arith, finish-payments, settle_invoice-payments)

-- A success webhook of a payment that had not succeeded leaves the payment's row succeeded, paid at
-- that time, under the references that the webhook carries or else those it had, and otherwise as it
-- was, also where the handler throws afterwards.
pub success_pays :
    (p : MonnifyWebhookPayload) (key : String) (w : World) {x : Payment}
    → resolve_payment p w ≡ ok (some x)
    → same_payment_status x.status PaymentStatus.succeeded ≡ false
    → find (λ y. str_eq y.id x.id) (handle_successful_transaction p key w).1.payments
      ≡ some (record x {
        status = PaymentStatus.succeeded;
        paid_at = some w.now;
        monnify_transaction_reference =
            or_option p.transaction_reference x.monnify_transaction_reference;
        monnify_payment_reference = or_option p.payment_reference x.monnify_payment_reference;
      })
unfolding handle_successful_transaction
success_pays p key w {x} resolved unpaid =
    let handled : handle_successful_transaction p key w ≡ settle_payment p key x w = ground arith in
    rw (ap (λ r. r.1.payments) handled ∙ settle_payment-payments p key x w) (
      find-save (λ y. y.id) (λ y. str_eq y.id x.id) (succeeded_payment p x w.now) w.payments
        (eq_refl x.id) (λ y h. h))

pub with_period-keeps :
    (x : Payment) (s : Subscription) (w : World)
    → ((with_period x s w).id ≡ s.id)
      × ((with_period x s w).merchant_id ≡ s.merchant_id)
      × ((with_period x s w).status ≡ s.status)
unfolding with_period renewed
with_period-keeps x s w = ground arith

-- The row that a paid webhook writes for the subscription.
abbrev pub activated : Payment → Subscription → World → Subscription
activated x s w = record (with_period x s w) { status = SubscriptionStatus.active }

with_period-active :
    (x : Payment) (s : Subscription) (w : World)
    → s.status ≡ SubscriptionStatus.active
    → with_period x s w ≡ activated x s w
unfolding with_period renewed
with_period-active x s w e = ground arith

module _ (x : Payment) (w : World) {id : String} {s : Subscription}
    (of_subscription : x.subscription_id ≡ some id)
    (found : find (is_subscription x.merchant_id id) w.subscriptions ≡ some s) where
  settled_by_activate :
      settle_subscription x w ≡ (activate (with_period x s w) >>= λ s'. pure (some s')) w
  unfolding settle_subscription
  settled_by_activate = ground arith

  settled_row :
      s.status ≢ SubscriptionStatus.expired
      → settle_subscription x w
        ≡ (ok (some (activated x s w)), save_subscription (activated x s w) w)
  unfolding activate transition_status assert_transition can_transition
  settled_row live =
      settled_by_activate ∙ ground (arith, with_period-keeps x s w, with_period-active x s w)

  -- The subscription of a paid webhook is active afterwards, whatever it was, unless it had expired;
  -- and it has the period that its plan gives.
  settle_subscription_activates :
      s.status ≢ SubscriptionStatus.expired
      → ((settle_subscription x w).0 ≡ ok (some (activated x s w)))
        × (find (is_subscription x.merchant_id id) (settle_subscription x w).1.subscriptions
            ≡ some (activated x s w))
  settle_subscription_activates live = rw (settled_row live) (
    refl,
    unfold save_subscription in
        find-save_subscription x.merchant_id id w found (activated x s w)
          (with_period-keeps x s w).0 (with_period-keeps x s w).1,
  )

  -- The subscription of a paid webhook that has expired makes the handler throw, and stays expired.
  pub settle_subscription_expired :
      s.status ≡ SubscriptionStatus.expired
      → settle_subscription x w
        ≡ (err (transition_error SubscriptionStatus.expired SubscriptionStatus.active), w)
  unfolding activate transition_status assert_transition can_transition
  settle_subscription_expired dead = settled_by_activate ∙ ground (arith, with_period-keeps x s w)
