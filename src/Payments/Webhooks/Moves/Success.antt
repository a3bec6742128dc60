-- ===== src/Payments/Webhooks/Moves/Success.antt =====
-- Proofs on `handle_successful_transaction` of src/payments/monnify-webhooks.service.ts, against the
-- transition table.
use subscription_billing_eng.Prelude.{
  Bool, String, some, none, List, ◌≡◌, refl, sym, ap, ◌∙◌, inl, inr, arith, str_eq, Bool-cases,
  Option-cases,
}
use subscription_billing_eng.Prelude.Table.{find}
use subscription_billing_eng.Entities.{
  Payment, PaymentStatus, same_payment_status, Invoice, Subscription, SubscriptionStatus,
  same_status,
}
use subscription_billing_eng.World.{
  World, save_payment, save_subscription, save_invoice, insert_attempt,
}
use subscription_billing_eng.Events.Frame.{emit-subscriptions}
use subscription_billing_eng.Invoices.{mark_paid, is_invoice}
use subscription_billing_eng.Subscriptions.StateMachine.{can_transition}
use subscription_billing_eng.Subscriptions.StateMachine.Follows.{
  Follows, Follows-same, Follows-start, Follows-end, Follows-save,
}
use subscription_billing_eng.Subscriptions.Service.{transition_status, is_subscription}
use subscription_billing_eng.Dunning.Schedule.{subscription_by_id}
use subscription_billing_eng.Renewal.Moves.{transition_status_lem, by_own_id}
use subscription_billing_eng.Payments.Webhooks.Resolve.{
  MonnifyWebhookPayload, resolve_payment-cases,
}
use subscription_billing_eng.Payments.Webhooks.Handlers.{
  log_attempt, activate, settle_subscription, settle_invoice, settle_payment,
  handle_successful_transaction, with_period, succeeded_payment, finish, record_event,
}
use subscription_billing_eng.Payments.Webhooks.Settlement.{finish-subscriptions, with_period-keeps}

-- An identifier is a primary key: the merchant's row of an identifier is the row of the identifier.
abbrev pub AreKeyed : List Subscription → Type 0
AreKeyed rows =
    (merchant id : String) (s : Subscription)
    → find (is_subscription merchant id) rows ≡ some s
    → find (λ y. str_eq y.id id) rows ≡ some s

pub stored_row :
    (w : World) (merchant id : String) {s : Subscription}
    → AreKeyed w.subscriptions
    → find (is_subscription merchant id) w.subscriptions ≡ some s
    → subscription_by_id s.id w ≡ some s
stored_row w merchant id {s} keyed found =
    by_own_id id w (unfold subscription_by_id in keyed merchant id s found)

activate-Follows :
    (u s : Subscription) (w : World)
    → subscription_by_id u.id w ≡ some s
    → u.status ≡ s.status
    → Follows w (activate u w).1
activate-Follows u s w stored same =
    elim (Bool-cases (same_status u.status SubscriptionStatus.active)) [
      | inl on ↦
          let e : (activate u w).1 ≡ save_subscription u w = unfold activate in ground arith in
          rw e (Follows-save u w stored (inl (sym same)))
      | inr off ↦
          let e : activate u w ≡ transition_status u SubscriptionStatus.active w =
            unfold activate in ground arith in
          elim (transition_status_lem u SubscriptionStatus.active w) [
            | inl (allowed, moved) ↦
                rw (e, moved)
                  (Follows-save (record u { status = SubscriptionStatus.active }) w stored
                    (inr
                      (ap (λ t. can_transition t SubscriptionStatus.active) (sym same) ∙ allowed)))
            | inr thrown ↦ rw (e, thrown) (Follows-same w w refl)
          ]
    ]

settle_subscription-Follows :
    (x : Payment) (w : World) → AreKeyed w.subscriptions → Follows w (settle_subscription x w).1
settle_subscription-Follows x w keyed = elim (Option-cases x.subscription_id) [
  | inl none_of ↦
      let e : (settle_subscription x w).1 ≡ w = unfold settle_subscription in ground arith in
      rw e (Follows-same w w refl)
  | inr (id, of) ↦ elim (Option-cases (find (is_subscription x.merchant_id id) w.subscriptions)) [
    | inl missing ↦
        let e : (settle_subscription x w).1 ≡ w = unfold settle_subscription in ground arith in
        rw e (Follows-same w w refl)
    | inr (s, found) ↦
        let e : (settle_subscription x w).1 ≡ (activate (with_period x s w) w).1 =
          unfold settle_subscription in ground arith in
        let (same_id, _, same_state) = with_period-keeps x s w in
        rw e (
          activate-Follows (with_period x s w) s w
            (ap (λ k. subscription_by_id k w) same_id ∙ stored_row w x.merchant_id id keyed found)
            same_state)
  ]
]

settle_invoice-subscriptions :
    (p : MonnifyWebhookPayload) (key : String) (f : Bool) (x : Payment) (i : Invoice) (w : World)
    → (settle_invoice p key f x i w).1.subscriptions
      ≡ (settle_subscription x (mark_paid i w).1).1.subscriptions
unfolding settle_invoice
settle_invoice-subscriptions p key f x i w = grind (arith, finish-subscriptions, emit-subscriptions)

settle_invoice-Follows :
    (p : MonnifyWebhookPayload) (key : String) (f : Bool) (x : Payment) (i : Invoice) (w : World)
    → AreKeyed w.subscriptions
    → Follows w (settle_invoice p key f x i w).1
settle_invoice-Follows p key f x i w keyed =
    let paid = (mark_paid i w).1 in
    let same : paid.subscriptions ≡ w.subscriptions = unfold mark_paid save_invoice in refl in
    let settled = (settle_subscription x paid).1 in
    Follows-end w settled (settle_invoice p key f x i w).1
      (Follows-start w paid settled same (settle_subscription-Follows x paid (rw same keyed)))
      (settle_invoice-subscriptions p key f x i w)

module _ (p : MonnifyWebhookPayload) (key : String) (x : Payment) (w : World) where
  abbrev paid : Payment
  paid = succeeded_payment p x w.now

  abbrev logged : World
  logged = log_attempt p paid PaymentStatus.succeeded none (save_payment paid w)

  logged-subscriptions : logged.subscriptions ≡ w.subscriptions
  unfolding log_attempt insert_attempt save_payment
  logged-subscriptions = refl

  settle_payment-Follows : AreKeyed w.subscriptions → Follows w (settle_payment p key x w).1
  settle_payment-Follows keyed =
      elim (Option-cases (find (is_invoice x.merchant_id x.invoice_id) logged.invoices)) [
        | inl missing ↦
            let e : (settle_payment p key x w).1 ≡ (finish p key paid logged).1 =
              unfold settle_payment in ground arith in
            rw e (
              Follows-same w (finish p key paid logged).1
                (finish-subscriptions p key paid logged ∙ logged-subscriptions))
        | inr (i, found) ↦
            let failed = same_payment_status x.status PaymentStatus.failed in
            let e : (settle_payment p key x w).1 ≡ (settle_invoice p key failed paid i logged).1 =
              unfold settle_payment in ground arith in
            rw e (
              Follows-start w logged (settle_invoice p key failed paid i logged).1
                logged-subscriptions
                (settle_invoice-Follows p key failed paid i logged (rw logged-subscriptions keyed)))
      ]

pub handle_successful_transaction-Follows :
    (p : MonnifyWebhookPayload) (key : String) (w : World)
    → AreKeyed w.subscriptions
    → Follows w (handle_successful_transaction p key w).1
handle_successful_transaction-Follows p key w keyed = elim (resolve_payment-cases p w) [
  | inl (e, thrown) ↦
      Follows-same w (handle_successful_transaction p key w).1
        (unfold handle_successful_transaction in ground arith)
  | inr (inl missing) ↦
      Follows-same w (handle_successful_transaction p key w).1
        (unfold handle_successful_transaction record_event in ground arith)
  | inr (inr (x, resolved)) ↦
      elim (Bool-cases (same_payment_status x.status PaymentStatus.succeeded)) [
        | inl done ↦
            let e : (handle_successful_transaction p key w).1 ≡ (finish p key x w).1 =
              unfold handle_successful_transaction in ground arith in
            rw e (Follows-same w (finish p key x w).1 (finish-subscriptions p key x w))
        | inr unpaid ↦
            let e : (handle_successful_transaction p key w).1 ≡ (settle_payment p key x w).1 =
              unfold handle_successful_transaction in ground arith in
            rw e (settle_payment-Follows p key x w keyed)
      ]
]
