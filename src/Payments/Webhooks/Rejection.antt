-- ===== src/Payments/Webhooks/Rejection.antt =====
-- Proofs on `handleRejectedPayment` of src/payments/monnify-webhooks.service.ts.
use subscription_billing_eng.Prelude.{false, String, some, ◌≡◌, refl, arith, ◌∙◌}
use subscription_billing_eng.Prelude.Table.{find, save}
use subscription_billing_eng.Entities.{Payment, PaymentStatus, Subscription, SubscriptionStatus}
use subscription_billing_eng.World.{World, err, save_payment, save_invoice, insert_attempt, ok}
use subscription_billing_eng.Invoices.{mark_failed}
use subscription_billing_eng.Subscriptions.StateMachine.{
  can_transition, assert_transition, transition_error,
}
use subscription_billing_eng.Subscriptions.Service.{transition_status, is_subscription}
use subscription_billing_eng.Payments.Webhooks.Resolve.{MonnifyWebhookPayload, resolve_payment}
use subscription_billing_eng.Payments.Webhooks.Handlers.{
  log_attempt, reject_invoice, reject_subscription, reject_payment, handle_rejected_payment,
  rejected_payment,
}

-- The state in which the subscription of a rejected payment is looked up.
abbrev pub rejected : MonnifyWebhookPayload → Payment → World → World
rejected p x w =
    let x' = rejected_payment p x in
    (reject_invoice x'
      (log_attempt p x' PaymentStatus.failed x'.failure_reason (save_payment x' w))).1

pub rejected-subscriptions :
    (p : MonnifyWebhookPayload) (x : Payment) (w : World)
    → (rejected p x w).subscriptions ≡ w.subscriptions
unfolding reject_invoice log_attempt save_payment insert_attempt mark_failed save_invoice
rejected-subscriptions p x w = ground arith

rejected-dunning_queue :
    (p : MonnifyWebhookPayload) (x : Payment) (w : World)
    → (rejected p x w).dunning_queue ≡ w.dunning_queue
unfolding reject_invoice log_attempt save_payment insert_attempt mark_failed save_invoice
rejected-dunning_queue p x w = ground arith

rejected-monnify_events :
    (p : MonnifyWebhookPayload) (x : Payment) (w : World)
    → (rejected p x w).monnify_events ≡ w.monnify_events
unfolding reject_invoice log_attempt save_payment insert_attempt mark_failed save_invoice
rejected-monnify_events p x w = ground arith

rejected-payments :
    (p : MonnifyWebhookPayload) (x : Payment) (w : World)
    → (rejected p x w).payments ≡ save (λ y. y.id) (rejected_payment p x) w.payments
unfolding reject_invoice log_attempt save_payment insert_attempt mark_failed save_invoice
rejected-payments p x w = ground arith

module _ (p : MonnifyWebhookPayload) (key : String) (w : World) {x : Payment} {id : String}
    {s : Subscription} (resolved : resolve_payment p w ≡ ok (some x))
    (pending : x.status ≡ PaymentStatus.pending) (of_subscription : x.subscription_id ≡ some id)
    (found : find (is_subscription x.merchant_id id) w.subscriptions ≡ some s) where
  handled : handle_rejected_payment p key w ≡ reject_payment p key x w
  unfolding handle_rejected_payment
  handled = ground arith

  found_again : find (is_subscription x.merchant_id id) (rejected p x w).subscriptions ≡ some s
  found_again = rw (rejected-subscriptions p x w) found

  -- A rejected payment of a subscription that the table does not let become past due, such as the
  -- first payment of a pending one, throws after the payment was saved as failed: the webhook is not
  -- recorded, no retry is queued, and the subscription stays.
  rejection_throws :
      can_transition s.status SubscriptionStatus.past_due ≡ false
      → ((handle_rejected_payment p key w).0
          ≡ err (transition_error s.status SubscriptionStatus.past_due))
        × ((handle_rejected_payment p key w).1.payments
            ≡ save (λ y. y.id) (rejected_payment p x) w.payments)
        × ((handle_rejected_payment p key w).1.monnify_events ≡ w.monnify_events)
        × ((handle_rejected_payment p key w).1.subscriptions ≡ w.subscriptions)
        × ((handle_rejected_payment p key w).1.dunning_queue ≡ w.dunning_queue)
  unfolding reject_payment reject_subscription transition_status assert_transition
  rejection_throws refused =
      let thrown : handle_rejected_payment p key w
          ≡ (err (transition_error s.status SubscriptionStatus.past_due), rejected p x w) =
        handled ∙ ground (arith, found_again) in
      rw thrown (
        refl,
        rejected-payments p x w,
        rejected-monnify_events p x w,
        rejected-subscriptions p x w,
        rejected-dunning_queue p x w,
      )
