-- ===== src/Payments/Service.antt =====
-- Payments of invoices: src/payments/payments.service.ts.
use subscription_billing_eng.Prelude.{
  ℕ, Bool, true, false, String, Option, none, some, ◌&&◌, not, str_eq, truthy, or_else,
  if◌then◌else◌,
}
use subscription_billing_eng.Prelude.Table.{find}
use subscription_billing_eng.Entities.{
  Invoice, Payment, PaymentAttempt, PaymentStatus, InvoiceStatus, same_invoice_status, EventData,
}
use subscription_billing_eng.World.{
  World, Action, Error, ok, err, gets, or_throw, throw_if, modify, ◌>>=◌, ◌>>◌, save_payment,
  insert_payment, insert_attempt, next_id,
}
use subscription_billing_eng.Events.{emit, DomainEventPayload}
use subscription_billing_eng.Events.DomainEvent
use subscription_billing_eng.Customers.{find_customer}
use subscription_billing_eng.Invoices.{find_invoice}
use subscription_billing_eng.Payments.Monnify.{
  MonnifyChargeResponse, MonnifyCheckoutResponse, charge, create_checkout_session,
}

-- The payment of an invoice, before it is tried.
unfoldable pub new_payment : Invoice → PaymentStatus → Option String → World → Payment
new_payment i status reason w = record {
  id = next_id w;
  merchant_id = i.merchant_id;
  invoice_id = i.id;
  subscription_id = i.subscription_id;
  amount = i.total;
  currency = i.currency;
  status = status;
  monnify_transaction_reference = none;
  monnify_payment_reference = none;
  failure_reason = reason;
  paid_at = none;
}

abbrev pub payment_event : Payment → Invoice → DomainEventPayload
payment_event p i = record {
  merchant_id = i.merchant_id;
  aggregate_type = "payment";
  aggregate_id = p.id;
  correlation_id = none;
  body = EventData.payment_failed p i;
}

-- The end of `createCheckout`: what the gateway answered is written to the payment.
unfoldable pub settle_checkout : Payment → MonnifyCheckoutResponse → Action (String × String)
settle_checkout p r w = elim (r.success && truthy r.checkout_url) [
  | false ↦
      let reason = or_else r.failure_reason "Checkout creation failed" in
      (
        err (Error.bad_request reason),
        save_payment (record p { status = PaymentStatus.failed; failure_reason = some reason }) w,
      )
  | true ↦ (
    ok (or_else r.checkout_url "", p.id),
    save_payment
        (record p {
          monnify_payment_reference = some (or_else r.payment_reference p.id);
          monnify_transaction_reference = r.transaction_reference;
        })
        w,
  )
]

-- `createCheckout`: the address of the checkout page and the payment's identifier.
unfoldable pub create_checkout : String → String → Action (String × String)
unfolding find_invoice find_customer settle_checkout
create_checkout m invoice_id = do
  i ← find_invoice m invoice_id
  throw_if (not (same_invoice_status i.status InvoiceStatus.pending))
      (Error.bad_request "Invoice is not pending payment")
  find_customer m i.customer_id
  p ← gets (new_payment i PaymentStatus.pending none)
  modify (insert_payment p)
  let referenced = record p { monnify_payment_reference = some p.id }
  modify (save_payment referenced)
  r ← λ w. let (r, w') = create_checkout_session referenced.id w in (ok r, w')
  settle_checkout referenced r

abbrev no_method : String
no_method = "No saved payment method — create a checkout session first"

-- `chargeInvoice` where the customer has no card token.
unfoldable pub fail_without_token : Invoice → World → Payment × World
fail_without_token i w =
    let p = new_payment i PaymentStatus.failed (some no_method) w in
    (p, emit DomainEvent.payment_failed (payment_event p i) (insert_payment p w))

abbrev pub outcome : Bool → PaymentStatus
outcome true = PaymentStatus.succeeded
outcome false = PaymentStatus.failed

unfoldable pub new_attempt : Payment → MonnifyChargeResponse → World → PaymentAttempt
new_attempt p r w = record {
  id = next_id w;
  merchant_id = p.merchant_id;
  payment_id = p.id;
  attempt_number = 1;
  status = outcome r.success;
  monnify_transaction_reference = r.transaction_reference;
  monnify_payment_reference = some r.payment_reference;
  failure_reason = r.failure_reason;
}

-- The payment after the gateway's answer.
unfoldable pub settled : Payment → MonnifyChargeResponse → ℕ → Payment
settled p r now = record p {
  status = outcome r.success;
  monnify_transaction_reference = r.transaction_reference;
  monnify_payment_reference = some r.payment_reference;
  failure_reason = r.failure_reason;
  paid_at = if r.success then some now else p.paid_at;
}

-- `chargeInvoice` with a token: the payment is stored as pending, charged, and settled.
unfoldable pub charge_with_token : Invoice → World → Payment × World
unfolding new_attempt settled
charge_with_token i w =
    let p = new_payment i PaymentStatus.pending none w in
    let (r, w₁) = charge p.id 1 (insert_payment p w) in
    let updated = settled p r w₁.now in
    let w₂ = save_payment updated (insert_attempt (new_attempt p r w₁) w₁) in
    (
      updated,
      if r.success then w₂ else emit DomainEvent.payment_failed (payment_event updated i) w₂,
    )

-- `chargeInvoice`.
unfoldable pub charge_invoice : Invoice → Action Payment
charge_invoice i = do
  c ← find_customer i.merchant_id i.customer_id
  λ w.
      let (p, w') =
        if truthy c.monnify_card_token then charge_with_token i w else fail_without_token i w in
      (ok p, w')

-- `where: { id, merchantId }`.
abbrev pub is_payment : String → String → Payment → Bool
is_payment m id p = str_eq p.id id && str_eq p.merchant_id m

-- `findOne`.
unfoldable pub find_payment : String → String → Action Payment
find_payment m id w =
    or_throw (find (is_payment m id) w.payments) (Error.not_found "Payment not found") w

-- `recordRecovery`.
unfoldable pub record_recovery : Payment → Invoice → World → World
record_recovery p i w =
    emit DomainEvent.payment_recovered
      (record {
        merchant_id = p.merchant_id;
        aggregate_type = "payment";
        aggregate_id = p.id;
        correlation_id = none;
        body = EventData.payment_recovered p i none none;
      })
      w
