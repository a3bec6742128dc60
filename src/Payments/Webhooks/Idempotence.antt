-- ===== src/Payments/Webhooks/Idempotence.antt =====
-- Proofs on `process` of src/payments/monnify-webhooks.service.ts: a webhook delivered twice.
use text.Mathlib.TextPositions.{eq_refl}
use subscription_billing_eng.Prelude.{
  Bool, true, false, String, Option, some, none, ◌≡◌, inl, inr, arith, Option-cases,
}
use subscription_billing_eng.Entities.{Payment, Invoice, Subscription, SubscriptionStatus}
use subscription_billing_eng.World.{
  World, ok, save_payment, save_subscription, save_customer, save_invoice, insert_attempt,
  enqueue_dunning,
}
use subscription_billing_eng.Events.Frame.{emit-config}
use subscription_billing_eng.Customers.{save_monnify_card_token, find_customer}
use subscription_billing_eng.Invoices.{mark_paid, mark_failed}
use subscription_billing_eng.Subscriptions.StateMachine.{assert_transition}
use subscription_billing_eng.Subscriptions.Service.{transition_status}
use subscription_billing_eng.Dunning.Schedule.{on_payment_failed, schedule_retry, schedule_attempt}
use subscription_billing_eng.Payments.Monnify.{get_transaction_card_token}
use subscription_billing_eng.Payments.Signature.{Crypto}
use subscription_billing_eng.Payments.Webhooks.Resolve.{
  MonnifyWebhookPayload, MonnifyWebhookHeaders, build_event_key,
}
use subscription_billing_eng.Payments.Webhooks.Handlers.{
  record_event, card_token_of, persist_card_token, finish, log_attempt, activate,
  settle_subscription, settle_invoice, settle_payment, handle_successful_transaction,
  reject_payment, handle_rejected_payment, handle_successful_refund,
}
use subscription_billing_eng.Payments.Webhooks.Process.{
  process, dispatch, find_recorded, signature_problem,
}

abbrev pub is_recorded : String → World → Bool
is_recorded key w = elim (find_recorded key w) [ none ↦ false | some e ↦ true ]

record_event-is_recorded :
    (key t : String) (p : Option Payment) (w : World)
    → is_recorded key (record_event key t p w) ≡ true
unfolding find_recorded record_event
record_event-is_recorded key t p w = ground (arith, eq_refl key)

finish-is_recorded :
    (p : MonnifyWebhookPayload) (key : String) (x : Payment) (w : World)
    → (finish p key x w).0 ≡ ok tt
    → is_recorded key (finish p key x w).1 ≡ true
unfolding finish
finish-is_recorded p key x w h = grind (arith, record_event-is_recorded)

settle_invoice-is_recorded :
    (p : MonnifyWebhookPayload) (key : String) (f : Bool) (x : Payment) (i : Invoice) (w : World)
    → (settle_invoice p key f x i w).0 ≡ ok tt
    → is_recorded key (settle_invoice p key f x i w).1 ≡ true
unfolding settle_invoice
settle_invoice-is_recorded p key f x i w h = grind (arith, finish-is_recorded)

settle_payment-is_recorded :
    (p : MonnifyWebhookPayload) (key : String) (x : Payment) (w : World)
    → (settle_payment p key x w).0 ≡ ok tt
    → is_recorded key (settle_payment p key x w).1 ≡ true
unfolding settle_payment
settle_payment-is_recorded p key x w h =
    grind (arith, finish-is_recorded, settle_invoice-is_recorded)

reject_payment-is_recorded :
    (p : MonnifyWebhookPayload) (key : String) (x : Payment) (w : World)
    → (reject_payment p key x w).0 ≡ ok tt
    → is_recorded key (reject_payment p key x w).1 ≡ true
unfolding reject_payment
reject_payment-is_recorded p key x w h = grind (arith, record_event-is_recorded)

dispatch-is_recorded :
    (p : MonnifyWebhookPayload) (key : String) (w : World)
    → (dispatch p key w).0 ≡ ok tt
    → is_recorded key (dispatch p key w).1 ≡ true
unfolding dispatch handle_successful_transaction handle_rejected_payment handle_successful_refund
dispatch-is_recorded p key w h = grind (
  arith, record_event-is_recorded, finish-is_recorded, settle_payment-is_recorded,
  reject_payment-is_recorded,
)

-- The configuration does not change.
transition_status-config :
    (s : Subscription) (t : SubscriptionStatus) (w : World)
    → (transition_status s t w).1.config ≡ w.config
unfolding transition_status assert_transition save_subscription
transition_status-config s t w = ground arith

on_payment_failed-config : (id : String) (w : World) → (on_payment_failed id w).1.config ≡ w.config
unfolding on_payment_failed schedule_retry schedule_attempt enqueue_dunning
on_payment_failed-config id w = grind (arith, emit-config)

finish-config :
    (p : MonnifyWebhookPayload) (key : String) (x : Payment) (w : World)
    → (finish p key x w).1.config ≡ w.config
unfolding finish persist_card_token card_token_of get_transaction_card_token save_monnify_card_token
    find_customer save_customer record_event
finish-config p key x w = grind arith

settle_subscription-config :
    (x : Payment) (w : World) → (settle_subscription x w).1.config ≡ w.config
unfolding settle_subscription activate save_subscription
settle_subscription-config x w = grind (arith, transition_status-config)

settle_invoice-config :
    (p : MonnifyWebhookPayload) (key : String) (f : Bool) (x : Payment) (i : Invoice) (w : World)
    → (settle_invoice p key f x i w).1.config ≡ w.config
unfolding settle_invoice mark_paid save_invoice
settle_invoice-config p key f x i w =
    grind (arith, finish-config, settle_subscription-config, emit-config)

settle_payment-config :
    (p : MonnifyWebhookPayload) (key : String) (x : Payment) (w : World)
    → (settle_payment p key x w).1.config ≡ w.config
unfolding settle_payment log_attempt save_payment insert_attempt
settle_payment-config p key x w = grind (arith, finish-config, settle_invoice-config)

reject_payment-config :
    (p : MonnifyWebhookPayload) (key : String) (x : Payment) (w : World)
    → (reject_payment p key x w).1.config ≡ w.config
unfolding reject_payment mark_failed save_invoice log_attempt save_payment insert_attempt
    record_event
reject_payment-config p key x w =
    grind (arith, transition_status-config, on_payment_failed-config, emit-config)

dispatch-config :
    (p : MonnifyWebhookPayload) (key : String) (w : World) → (dispatch p key w).1.config ≡ w.config
unfolding dispatch handle_successful_transaction handle_rejected_payment handle_successful_refund
    record_event save_payment
dispatch-config p key w = grind (arith, finish-config, settle_payment-config, reject_payment-config)

signature_problem-cong :
    (c : Crypto) (h : MonnifyWebhookHeaders) (v w : World)
    → v.config ≡ w.config
    → signature_problem c h v ≡ signature_problem c h w
unfolding signature_problem
signature_problem-cong c h v w e = cc

-- A webhook that was processed without an exception changes nothing when it is delivered again: the
-- second delivery is answered as received, and the state is the one after the first.
pub process_twice :
    (c : Crypto) (p : MonnifyWebhookPayload) (h : MonnifyWebhookHeaders) (w : World)
    → (process c p h w).0 ≡ ok tt
    → process c p h (process c p h w).1 ≡ (ok tt, (process c p h w).1)
unfolding process
process_twice c p h w done = elim (Option-cases (signature_problem c h w)) [
  | inr (message, refused) ↦ ground arith
  | inl authentic ↦ elim (Option-cases (build_event_key p)) [
    | inl keyless ↦ ground arith
    | inr (key, keyed) ↦ elim (Option-cases (find_recorded key w)) [
      | inr (seen, recorded) ↦ ground arith
      | inl fresh ↦ ground (
        arith,
        dispatch-is_recorded p key w,
        signature_problem-cong c h (dispatch p key w).1 w (dispatch-config p key w),
      )
    ]
  ]
]
