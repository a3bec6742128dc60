-- ===== src/Payments/Webhooks/Moves.antt =====
-- Proofs on `process` of src/payments/monnify-webhooks.service.ts, against the transition table.
mod Success
use subscription_billing_eng.Prelude.{
  Bool, String, some, none, List, ◌||◌, ◌≡◌, refl, sym, ap, ◌∙◌, inl, inr, arith, str_eq,
  Bool-cases, Option-cases,
}
use subscription_billing_eng.Prelude.Table.{find}
use subscription_billing_eng.Entities.{
  Payment, PaymentStatus, same_payment_status, Invoice, Subscription, SubscriptionStatus,
  same_status,
}
use subscription_billing_eng.World.{
  World, save_payment, save_subscription, save_invoice, insert_attempt,
}
use subscription_billing_eng.Events.Frame.{emit-subscriptions}
use subscription_billing_eng.Invoices.{mark_paid, is_invoice}
use subscription_billing_eng.Subscriptions.StateMachine.{can_transition, assert_transition}
use subscription_billing_eng.Subscriptions.StateMachine.Graph.{IsMove}
use subscription_billing_eng.Subscriptions.StateMachine.Follows.{
  Follows, Follows-same, Follows-start, Follows-end, Follows-save,
}
use subscription_billing_eng.Subscriptions.Service.{transition_status, is_subscription}
use subscription_billing_eng.Dunning.Schedule.{subscription_by_id, on_payment_failed}
use subscription_billing_eng.Renewal.Moves.{transition_status_lem, by_own_id, moved_and_scheduled}
use subscription_billing_eng.Payments.Webhooks.Resolve.{
  MonnifyWebhookPayload, MonnifyWebhookHeaders, resolve_payment, resolve_payment-cases,
  build_event_key,
}
use subscription_billing_eng.Payments.Webhooks.Handlers.{
  log_attempt, activate, settle_subscription, settle_invoice, settle_payment,
  handle_successful_transaction, with_period, succeeded_payment, finish, rejected_payment,
  reject_subscription, reject_payment, record_event, announce_rejected, handle_rejected_payment,
  handle_successful_refund,
}
use subscription_billing_eng.Payments.Signature.{Crypto}
use subscription_billing_eng.Payments.Webhooks.Process.{
  dispatch, process, signature_problem, find_recorded,
}
use subscription_billing_eng.Payments.Webhooks.Settlement.{finish-subscriptions, with_period-keeps}
use subscription_billing_eng.Payments.Webhooks.Rejection.{rejected, rejected-subscriptions}
use subscription_billing_eng.Payments.Webhooks.Moves.Success.{
  AreKeyed, stored_row, handle_successful_transaction-Follows,
}

reject_subscription-Follows :
    (x : Payment) (w : World) → AreKeyed w.subscriptions → Follows w (reject_subscription x w).1
reject_subscription-Follows x w keyed = elim (Option-cases x.subscription_id) [
  | inl none_of ↦
      let e : (reject_subscription x w).1 ≡ w = unfold reject_subscription in ground arith in
      rw e (Follows-same w w refl)
  | inr (id, of) ↦ elim (Option-cases (find (is_subscription x.merchant_id id) w.subscriptions)) [
    | inl missing ↦
        let e : (reject_subscription x w).1 ≡ w = unfold reject_subscription in ground arith in
        rw e (Follows-same w w refl)
    | inr (s, found) ↦
        moved_and_scheduled IsMove (λ s. inl refl) s s.id SubscriptionStatus.past_due 1 w
          (reject_subscription x w).1 inr refl (stored_row w x.merchant_id id keyed found)
          (λ allowed.
            unfold reject_subscription transition_status assert_transition on_payment_failed in
            ground arith)
          (λ refused.
            unfold reject_subscription transition_status assert_transition in ground arith)
  ]
]

reject_payment-Follows :
    (p : MonnifyWebhookPayload) (key : String) (x : Payment) (w : World)
    → AreKeyed w.subscriptions
    → Follows w (reject_payment p key x w).1
reject_payment-Follows p key x w keyed =
    let x' = rejected_payment p x in
    let written = rejected p x w in
    let same : written.subscriptions ≡ w.subscriptions = rejected-subscriptions p x w in
    let moved = (reject_subscription x' written).1 in
    Follows-end w moved (reject_payment p key x w).1
      (Follows-start w written moved same (reject_subscription-Follows x' written (rw same keyed)))
      (unfold reject_payment announce_rejected record_event in grind (arith, emit-subscriptions))

handle_rejected_payment-Follows :
    (p : MonnifyWebhookPayload) (key : String) (w : World)
    → AreKeyed w.subscriptions
    → Follows w (handle_rejected_payment p key w).1
handle_rejected_payment-Follows p key w keyed = elim (resolve_payment-cases p w) [
  | inl (e, thrown) ↦
      Follows-same w (handle_rejected_payment p key w).1
        (unfold handle_rejected_payment in ground arith)
  | inr (inl missing) ↦
      Follows-same w (handle_rejected_payment p key w).1
        (unfold handle_rejected_payment record_event in ground arith)
  | inr (inr (x, resolved)) ↦
      elim (Bool-cases (
        same_payment_status x.status PaymentStatus.failed
        || same_payment_status x.status PaymentStatus.succeeded)) [
          | inl settled ↦
              Follows-same w (handle_rejected_payment p key w).1
                (unfold handle_rejected_payment record_event in ground arith)
          | inr open_still ↦
              let e : (handle_rejected_payment p key w).1 ≡ (reject_payment p key x w).1 =
                unfold handle_rejected_payment in ground arith in
              rw e (reject_payment-Follows p key x w keyed)
        ]
]

handle_successful_refund-subscriptions :
    (p : MonnifyWebhookPayload) (key : String) (w : World)
    → (handle_successful_refund p key w).1.subscriptions ≡ w.subscriptions
unfolding handle_successful_refund record_event save_payment
handle_successful_refund-subscriptions p key w = ground arith

dispatch-Follows :
    (p : MonnifyWebhookPayload) (key : String) (w : World)
    → AreKeyed w.subscriptions
    → Follows w (dispatch p key w).1
dispatch-Follows p key w keyed = elim (Bool-cases (str_eq p.event_type "SUCCESSFUL_TRANSACTION")) [
  | inl success ↦
      let e : dispatch p key ≡ handle_successful_transaction p key =
        unfold dispatch in ground arith in
      rw e (handle_successful_transaction-Follows p key w keyed)
  | inr unpaid ↦ elim (Bool-cases (str_eq p.event_type "REJECTED_PAYMENT")) [
    | inl refused ↦ elim (Bool-cases (str_eq p.event_type "SUCCESSFUL_REFUND")) [
      | inl refund ↦
          Follows-same w (dispatch p key w).1
            (unfold dispatch in ground (arith, handle_successful_refund-subscriptions p key w))
      | inr other ↦
          let e : dispatch p key ≡ handle_rejected_payment p key =
            unfold dispatch in ground arith in
          rw e (handle_rejected_payment-Follows p key w keyed)
    ]
    | inr other ↦ Follows-same w (dispatch p key w).1 (
        unfold dispatch record_event in
        ground (arith, handle_successful_refund-subscriptions p key w))
  ]
]

module _ (c : Crypto) where
  -- A webhook, authentic or not, new or seen, keeps every subscription, with the same status or with
  -- one that the transition table allows next, where identifiers are primary keys.
  pub process_moves :
      (p : MonnifyWebhookPayload) (h : MonnifyWebhookHeaders) (w : World) (id : String)
      {t : Subscription}
      → ((merchant key : String) (s : Subscription)
          → find (is_subscription merchant key) w.subscriptions ≡ some s
          → find (λ y. str_eq y.id key) w.subscriptions ≡ some s)
      → subscription_by_id id w ≡ some t
      → (t' : Subscription) × (subscription_by_id id (process c p h w).1 ≡ some t')
        × IsMove t.status t'.status
  process_moves p h w id {t} keyed found = moves id t found
    where
      moves : Follows w (process c p h w).1
      moves = elim (Option-cases (signature_problem c h w)) [
        | inr (message, bad) ↦ Follows-same w (process c p h w).1 (unfold process in ground arith)
        | inl signed ↦ elim (Option-cases (build_event_key p)) [
          | inl keyless ↦ Follows-same w (process c p h w).1 (unfold process in ground arith)
          | inr (key, e) ↦ elim (Option-cases (find_recorded key w)) [
            | inr (seen, r) ↦ Follows-same w (process c p h w).1 (unfold process in ground arith)
            | inl new ↦
                let goes : (process c p h w).1 ≡ (dispatch p key w).1 =
                  unfold process in ground arith in
                rw goes (dispatch-Follows p key w keyed)
          ]
        ]
      ]
