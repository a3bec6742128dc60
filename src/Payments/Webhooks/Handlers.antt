-- ===== src/Payments/Webhooks/Handlers.antt =====
-- The handlers of the three kinds of event that change payments.
use subscription_billing_eng.Prelude.{
  ℕ, ◌+◌, Bool, String, Option, none, some, ◌∷◌, ◌||◌, str_eq, truthy, or_else, or_option, length,
  filter, if◌then◌else◌,
}
use subscription_billing_eng.Prelude.Table.{find}
use subscription_billing_eng.Entities.{
  Payment, PaymentStatus, same_payment_status, Invoice, Subscription, SubscriptionStatus,
  same_status, EventData,
}
use subscription_billing_eng.World.{
  World, Action, ok, pure, modify, ◌>>=◌, ◌>>◌, save_payment, save_subscription, insert_attempt,
  next_id, draw, err,
}
use subscription_billing_eng.Events.{emit, DomainEventPayload}
use subscription_billing_eng.Events.DomainEvent
use subscription_billing_eng.Plans.{is_plan}
use subscription_billing_eng.Customers.{save_monnify_card_token}
use subscription_billing_eng.Invoices.{is_invoice, mark_paid, mark_failed}
use subscription_billing_eng.Subscriptions.Service.{is_subscription, transition_status}
use subscription_billing_eng.Renewal.Cycle.{renewed}
use subscription_billing_eng.Dunning.Schedule.{on_payment_failed}
use subscription_billing_eng.Payments.Monnify.{get_transaction_card_token}
use subscription_billing_eng.Payments.Webhooks.Resolve.{MonnifyWebhookPayload, resolve_payment}

-- `recordEvent`.
unfoldable pub record_event : String → String → Option Payment → World → World
record_event key event_type p w = draw (record w {
  monnify_events =
      record {
        id = next_id w;
        event_key = key;
        event_type = event_type;
        merchant_id = elim p [ none ↦ none | some x ↦ some x.merchant_id ];
        payment_id = elim p [ none ↦ none | some x ↦ some x.id ];
      }
      ∷ w.monnify_events;
})

-- The token of the payload, or else of the transaction's status.
unfoldable pub card_token_of : MonnifyWebhookPayload → World → Option String × World
card_token_of p w = if truthy p.card_token then (p.card_token, w) else get_transaction_card_token w

store_token : Option String → Payment → Action (Unit {0})
store_token token payment w =
    if truthy token
    then elim (find (is_invoice payment.merchant_id payment.invoice_id) w.invoices) [
      | none ↦ (ok tt, w)
      | some i ↦
          (save_monnify_card_token payment.merchant_id i.customer_id (or_else token "") >> pure tt)
            w
    ]
    else (ok tt, w)

-- `persistCardToken`.
unfoldable pub persist_card_token : MonnifyWebhookPayload → Payment → Action (Unit {0})
unfolding store_token
persist_card_token p payment w = let (token, w') = card_token_of p w in store_token token payment w'

-- How every handler of a known payment ends.
unfoldable pub finish : MonnifyWebhookPayload → String → Payment → Action (Unit {0})
finish p key payment = do
  persist_card_token p payment
  modify (record_event key p.event_type (some payment))

-- The references that the webhook carries replace the payment's. A property that is set to
-- `undefined`, as `failureReason` is by a success, is not written by a save.
abbrev pub with_references : MonnifyWebhookPayload → Payment → Payment
with_references p x = record x {
  monnify_transaction_reference = or_option p.transaction_reference x.monnify_transaction_reference;
  monnify_payment_reference = or_option p.payment_reference x.monnify_payment_reference;
}

unfoldable pub attempt_count : String → World → ℕ
unfolding filter
attempt_count id w = length (filter (λ a. str_eq a.payment_id id) w.attempts)

-- The attempt that a webhook reports, after the payment was saved.
unfoldable pub log_attempt :
    MonnifyWebhookPayload → Payment → PaymentStatus → Option String → World → World
unfolding attempt_count
log_attempt p x status reason w =
    insert_attempt
      (record {
        id = next_id w;
        merchant_id = x.merchant_id;
        payment_id = x.id;
        attempt_number = attempt_count x.id w + 1;
        status = status;
        monnify_transaction_reference = p.transaction_reference;
        monnify_payment_reference = p.payment_reference;
        failure_reason = reason;
      })
      w

-- The new period of a paid subscription, where its plan is found.
unfoldable pub with_period : Payment → Subscription → World → Subscription
with_period x s w = elim (find (is_plan x.merchant_id s.plan_id) w.plans) [
  | none ↦ s
  | some plan ↦ renewed plan w.now s
]

-- A subscription that is not active is moved to active; another is saved.
unfoldable pub activate : Subscription → Action Subscription
activate s w =
    if same_status s.status SubscriptionStatus.active
    then (ok s, save_subscription s w)
    else transition_status s SubscriptionStatus.active w

-- What a success does to the subscription of the payment.
unfoldable pub settle_subscription : Payment → Action (Option Subscription)
unfolding with_period
settle_subscription x w = elim x.subscription_id [
  | none ↦ (ok none, w)
  | some id ↦ elim (find (is_subscription x.merchant_id id) w.subscriptions) [
    | none ↦ (ok none, w)
    | some s ↦ (activate (with_period x s w) >>= λ s'. pure (some s')) w
  ]
]

abbrev webhook_event : Payment → String → String → EventData → DomainEventPayload
webhook_event x kind id payload = record {
  merchant_id = x.merchant_id;
  aggregate_type = kind;
  aggregate_id = id;
  correlation_id = none;
  body = payload;
}

-- A payment that had failed is recovered; another renews its subscription.
announce_settled : Bool → Payment → Invoice → Option Subscription → World → World
announce_settled was_failed x i none w = w
announce_settled was_failed x i (some s) w =
    if was_failed
    then emit DomainEvent.payment_recovered
        (webhook_event x "payment" x.id (EventData.payment_recovered x i none none)) w
    else emit DomainEvent.subscription_renewed
        (webhook_event x "subscription" s.id (EventData.subscription_renewed s i)) w

-- The rest of a success, with the invoice found.
unfoldable pub settle_invoice :
    MonnifyWebhookPayload → String → Bool → Payment → Invoice → Action (Unit {0})
unfolding announce_settled
settle_invoice p key was_failed x i = do
  paid ← λ w. let (paid, w') = mark_paid i w in (ok paid, w')
  s ← settle_subscription x
  modify (
      emit DomainEvent.invoice_paid
        (webhook_event x "invoice" i.id (EventData.invoice_paid paid x s)))
  modify (announce_settled was_failed x paid s)
  finish p key x

-- The payment that the webhook reports as paid.
abbrev pub succeeded_payment : MonnifyWebhookPayload → Payment → ℕ → Payment
succeeded_payment p x now = record (with_references p x) {
  status = PaymentStatus.succeeded;
  paid_at = some now;
}

unfoldable pub settle_payment : MonnifyWebhookPayload → String → Payment → Action (Unit {0})
settle_payment p key x w =
    let x' = succeeded_payment p x w.now in
    let w' = log_attempt p x' PaymentStatus.succeeded none (save_payment x' w) in
    elim (find (is_invoice x.merchant_id x.invoice_id) w'.invoices) [
      | none ↦ finish p key x' w'
      | some i ↦ settle_invoice p key (same_payment_status x.status PaymentStatus.failed) x' i w'
    ]

-- `handleSuccessfulTransaction`.
unfoldable pub handle_successful_transaction : MonnifyWebhookPayload → String → Action (Unit {0})
handle_successful_transaction p key w = elim (resolve_payment p w) [
  | err e ↦ (err e, w)
  | ok none ↦ (ok tt, record_event key p.event_type none w)
  | ok (some x) ↦
      if same_payment_status x.status PaymentStatus.succeeded
      then finish p key x w
      else settle_payment p key x w
]

-- The invoice of a rejected payment becomes failed, where it is found.
unfoldable pub reject_invoice : Payment → World → Option Invoice × World
reject_invoice x w = elim (find (is_invoice x.merchant_id x.invoice_id) w.invoices) [
  | none ↦ (none, w)
  | some i ↦ let (failed, w') = mark_failed i w in (some failed, w')
]

unfoldable pub reject_subscription : Payment → Action (Unit {0})
reject_subscription x w = elim x.subscription_id [
  | none ↦ (ok tt, w)
  | some id ↦ elim (find (is_subscription x.merchant_id id) w.subscriptions) [
    | none ↦ (ok tt, w)
    | some s ↦ (transition_status s SubscriptionStatus.past_due >>= λ s'. on_payment_failed s'.id) w
  ]
]

unfoldable pub announce_rejected : Payment → Option Invoice → World → World
announce_rejected x none w = w
announce_rejected x (some i) w =
    emit DomainEvent.payment_failed (webhook_event x "payment" x.id (EventData.payment_failed x i))
      w

-- The payment that the webhook reports as rejected.
abbrev pub rejected_payment : MonnifyWebhookPayload → Payment → Payment
rejected_payment p x = record (with_references p x) {
  status = PaymentStatus.failed;
  failure_reason = some (or_else p.payment_description "Payment rejected");
}

unfoldable pub reject_payment : MonnifyWebhookPayload → String → Payment → Action (Unit {0})
unfolding reject_invoice reject_subscription announce_rejected
reject_payment p key x = do
  let x' = rejected_payment p x
  modify (save_payment x')
  modify (log_attempt p x' PaymentStatus.failed x'.failure_reason)
  i ← λ w. let (i, w') = reject_invoice x' w in (ok i, w')
  reject_subscription x'
  modify (announce_rejected x' i)
  modify (record_event key p.event_type (some x'))

-- `handleRejectedPayment`.
unfoldable pub handle_rejected_payment : MonnifyWebhookPayload → String → Action (Unit {0})
handle_rejected_payment p key w = elim (resolve_payment p w) [
  | err e ↦ (err e, w)
  | ok none ↦ (ok tt, record_event key p.event_type none w)
  | ok (some x) ↦
      if same_payment_status x.status PaymentStatus.failed
        || same_payment_status x.status PaymentStatus.succeeded
      then (ok tt, record_event key p.event_type (some x) w)
      else reject_payment p key x w
]

-- `handleSuccessfulRefund`.
unfoldable pub handle_successful_refund : MonnifyWebhookPayload → String → Action (Unit {0})
handle_successful_refund p key w = elim (resolve_payment p w) [
  | err e ↦ (err e, w)
  | ok none ↦ (ok tt, record_event key p.event_type none w)
  | ok (some x) ↦
      let x' = record (with_references p x) { status = PaymentStatus.refunded } in
      (ok tt, record_event key p.event_type (some x') (save_payment x' w))
]
