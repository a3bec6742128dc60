-- ===== src/Payments/Checkouts.antt =====
-- What `createCheckout` of src/payments/payments.service.ts leaves of the payment.
use text.Mathlib.TextPositions.{eq_refl}
use subscription_billing_eng.Prelude.{
  String, some, none, ◌≡◌, ◌⊎◌, inl, inr, refl, arith, str_eq, Bool-cases, ◌&&◌, truthy, or_else,
}
use subscription_billing_eng.Prelude.Table.{find, save, find-save}
use subscription_billing_eng.Entities.{Customer, Invoice, InvoiceStatus, Payment, PaymentStatus}
use subscription_billing_eng.World.{
  World, Result, ok, err, Error, save_payment, insert_payment, next_id,
}
use subscription_billing_eng.Customers.{find_customer, is_customer}
use subscription_billing_eng.Invoices.{find_invoice, is_invoice}
use subscription_billing_eng.Payments.Monnify.{MonnifyCheckoutResponse, create_checkout_session}
use subscription_billing_eng.Payments.Service.{new_payment, settle_checkout, create_checkout}

-- A checkout is answered with the identifier of its payment, which waits; or it throws the reason
-- that was stored with the failed payment.
abbrev pub IsAnswered : Result (String × String) → Payment → Type 0
IsAnswered r p =
    ((url : String) × (r ≡ ok (url, p.id)) × (p.status ≡ PaymentStatus.pending))
    ⊎ ((reason : String) × (r ≡ err (Error.bad_request reason))
        × (p.status ≡ PaymentStatus.failed)
        × (p.failure_reason ≡ some reason))

settle_checkout_lem :
    (x : Payment) (r : MonnifyCheckoutResponse) (w : World)
    → x.status ≡ PaymentStatus.pending
    → (p : Payment) × ((settle_checkout x r w).1.payments ≡ save (λ y. y.id) p w.payments)
      × (p.invoice_id ≡ x.invoice_id)
      × (p.amount ≡ x.amount)
      × (p.paid_at ≡ x.paid_at)
      × IsAnswered (settle_checkout x r w).0 p
unfolding settle_checkout save_payment
settle_checkout_lem x r w waits = elim (Bool-cases (r.success && truthy r.checkout_url)) [
  | inl good ↦ (
    record x {
      monnify_payment_reference = some (or_else r.payment_reference x.id);
      monnify_transaction_reference = r.transaction_reference;
    },
    ground arith,
    refl,
    refl,
    refl,
    inl (or_else r.checkout_url "", ground arith, waits),
  )
  | inr bad ↦
      let reason = or_else r.failure_reason "Checkout creation failed" in
      (
        record x { status = PaymentStatus.failed; failure_reason = some reason },
        ground arith,
        refl,
        refl,
        refl,
        inr (reason, ground arith, refl, refl),
      )
]

module _ (m id : String) (w : World) {i : Invoice} {c : Customer}
    (found : find (is_invoice m id) w.invoices ≡ some i)
    (has_customer : find (is_customer m i.customer_id) w.customers ≡ some c) where
  -- The payment of the checkout, and the state in which the gateway is asked.
  abbrev opened : Payment
  opened = record (new_payment i PaymentStatus.pending none w) {
    monnify_payment_reference = some (next_id w);
  }

  abbrev asked : World
  asked = save_payment opened (insert_payment (new_payment i PaymentStatus.pending none w) w)

  -- A checkout of a pending invoice whose customer is known leaves one payment of the whole total, not
  -- paid, under its identifier: waiting where a page was made, and failed with its reason where the
  -- call throws.
  pub create_checkout-IsAnswered :
      i.status ≡ InvoiceStatus.pending
      → (p : Payment) × (find (λ x. str_eq x.id p.id) (create_checkout m id w).1.payments ≡ some p)
        × (p.invoice_id ≡ i.id)
        × (p.amount ≡ i.total)
        × (p.paid_at ≡ none)
        × IsAnswered (create_checkout m id w).0 p
  unfolding create_checkout find_invoice find_customer new_payment
  create_checkout-IsAnswered pending =
      let (r, w') = create_checkout_session opened.id asked in
      let settled : create_checkout m id w ≡ settle_checkout opened r w' = ground arith in
      let (p, stored, of_invoice, whole, unpaid, answer) = settle_checkout_lem opened r w' refl in
      rw settled (
        p,
        rw stored
            (find-save (λ y. y.id) (λ x. str_eq x.id p.id) p w'.payments (eq_refl p.id) (λ x h. h)),
        of_invoice,
        whole,
        unpaid,
        answer,
      )
