-- ===== src/Payments/Webhooks/Expired.antt =====
-- Proofs on `handleSuccessfulTransaction` of src/payments/monnify-webhooks.service.ts, where the
-- subscription has expired.
use subscription_billing_eng.Prelude.{false, String, some, none, ◌≡◌, refl, arith}
use subscription_billing_eng.Prelude.Table.{find, save}
use subscription_billing_eng.Entities.{
  Payment, PaymentStatus, same_payment_status, Invoice, InvoiceStatus, Subscription,
  SubscriptionStatus,
}
use subscription_billing_eng.World.{World, err, save_payment, save_invoice, insert_attempt, ok}
use subscription_billing_eng.Invoices.{mark_paid, is_invoice}
use subscription_billing_eng.Subscriptions.StateMachine.{transition_error}
use subscription_billing_eng.Subscriptions.Service.{is_subscription}
use subscription_billing_eng.Payments.Webhooks.Resolve.{MonnifyWebhookPayload, resolve_payment}
use subscription_billing_eng.Payments.Webhooks.Handlers.{
  log_attempt, settle_subscription, settle_invoice, settle_payment, handle_successful_transaction,
  succeeded_payment,
}
use subscription_billing_eng.Payments.Webhooks.Settlement.{settle_subscription_expired}

module _ (p : MonnifyWebhookPayload) (key : String) (w : World) {x : Payment} {i : Invoice}
    {id : String} {s : Subscription} (resolved : resolve_payment p w ≡ ok (some x))
    (unpaid : same_payment_status x.status PaymentStatus.succeeded ≡ false)
    (of_invoice : find (is_invoice x.merchant_id x.invoice_id) w.invoices ≡ some i)
    (of_subscription : x.subscription_id ≡ some id)
    (found : find (is_subscription x.merchant_id id) w.subscriptions ≡ some s)
    (dead : s.status ≡ SubscriptionStatus.expired) where
  -- The state after the payment, its attempt and its invoice were written.
  abbrev logged : World
  logged =
      log_attempt p (succeeded_payment p x w.now) PaymentStatus.succeeded none
        (save_payment (succeeded_payment p x w.now) w)

  abbrev paid : World
  paid = (mark_paid i logged).1

  logged-invoices : logged.invoices ≡ w.invoices
  unfolding log_attempt insert_attempt save_payment
  logged-invoices = refl

  paid-subscriptions : paid.subscriptions ≡ w.subscriptions
  unfolding mark_paid save_invoice log_attempt insert_attempt save_payment
  paid-subscriptions = refl

  thrown :
      settle_subscription (succeeded_payment p x w.now) paid
      ≡ (err (transition_error SubscriptionStatus.expired SubscriptionStatus.active), paid)
  thrown =
      settle_subscription_expired (succeeded_payment p x w.now) paid {s = s} of_subscription
        (rw paid-subscriptions found) dead

  handled :
      handle_successful_transaction p key w
      ≡ (err (transition_error SubscriptionStatus.expired SubscriptionStatus.active), paid)
  unfolding handle_successful_transaction settle_payment settle_invoice
  handled = ground (arith, thrown, logged-invoices)

  -- A success webhook of a payment whose subscription has expired throws after the payment was saved
  -- as succeeded and its invoice as paid: the webhook is not recorded, no event is emitted, and the
  -- subscription stays expired.
  success_expired_throws :
      ((handle_successful_transaction p key w).0
        ≡ err (transition_error SubscriptionStatus.expired SubscriptionStatus.active))
      × ((handle_successful_transaction p key w).1.payments
          ≡ save (λ y. y.id) (succeeded_payment p x w.now) w.payments)
      × ((handle_successful_transaction p key w).1.invoices
          ≡ save
              (λ y. y.id)
              (record i { status = InvoiceStatus.paid; paid_at = some w.now })
              w.invoices)
      × ((handle_successful_transaction p key w).1.monnify_events ≡ w.monnify_events)
      × ((handle_successful_transaction p key w).1.events ≡ w.events)
      × ((handle_successful_transaction p key w).1.subscriptions ≡ w.subscriptions)
  unfolding mark_paid save_invoice log_attempt insert_attempt save_payment
  success_expired_throws = rw handled (refl, refl, refl, refl, refl, refl)
