-- ===== src/Payments/Charges.antt =====
-- What `chargeInvoice` of src/payments/payments.service.ts writes, and what it leaves alone.
use text.Mathlib.TextPositions.{eq_refl}
use subscription_billing_eng.Prelude.{
  ℕ, some, none, ◌∷◌, ◌≡◌, ◌⊎◌, inl, inr, arith, str_eq, Bool-cases, Option-cases, truthy,
}
use subscription_billing_eng.Prelude.Table.{find, save, find-save}
use subscription_billing_eng.Entities.{Invoice, Payment, PaymentStatus}
use subscription_billing_eng.World.{World, ok, save_payment, insert_payment, insert_attempt}
use subscription_billing_eng.Events.Frame.{
  emit-subscriptions, emit-invoices, emit-plans, emit-dunning_queue, emit-now, emit-chaos_rules,
  emit-payments,
}
use subscription_billing_eng.Customers.{find_customer, is_customer}
use subscription_billing_eng.Payments.Monnify.{charge}
use subscription_billing_eng.Payments.Service.{
  charge_invoice, charge_with_token, fail_without_token, new_payment, settled,
}

module _ (i : Invoice) (w : World) where
  pub charge-subscriptions : (charge_invoice i w).1.subscriptions ≡ w.subscriptions
  unfolding charge_invoice charge_with_token fail_without_token charge find_customer save_payment
      insert_payment insert_attempt
  charge-subscriptions = grind (arith, emit-subscriptions)

  pub charge-invoices : (charge_invoice i w).1.invoices ≡ w.invoices
  unfolding charge_invoice charge_with_token fail_without_token charge find_customer save_payment
      insert_payment insert_attempt
  charge-invoices = grind (arith, emit-invoices)

  pub charge-plans : (charge_invoice i w).1.plans ≡ w.plans
  unfolding charge_invoice charge_with_token fail_without_token charge find_customer save_payment
      insert_payment insert_attempt
  charge-plans = grind (arith, emit-plans)

  pub charge-dunning_queue : (charge_invoice i w).1.dunning_queue ≡ w.dunning_queue
  unfolding charge_invoice charge_with_token fail_without_token charge find_customer save_payment
      insert_payment insert_attempt
  charge-dunning_queue = grind (arith, emit-dunning_queue)

  pub charge-now : (charge_invoice i w).1.now ≡ w.now
  unfolding charge_invoice charge_with_token fail_without_token charge find_customer save_payment
      insert_payment insert_attempt
  charge-now = grind (arith, emit-now)

  pub charge-chaos_rules : (charge_invoice i w).1.chaos_rules ≡ w.chaos_rules
  unfolding charge_invoice charge_with_token fail_without_token charge find_customer save_payment
      insert_payment insert_attempt
  charge-chaos_rules = grind (arith, emit-chaos_rules)

  with_token-payments :
      (charge_with_token i w).1.payments
      ≡ save
          (λ x. x.id)
          (charge_with_token i w).0
          (new_payment i PaymentStatus.pending none w ∷ w.payments)
  unfolding charge_with_token charge save_payment insert_payment insert_attempt
  with_token-payments = grind (arith, emit-payments)

  with_token-stored :
      find (λ x. str_eq x.id (charge_with_token i w).0.id) (charge_with_token i w).1.payments
      ≡ some (charge_with_token i w).0
  with_token-stored = rw with_token-payments (
      find-save (λ x. x.id) _ (charge_with_token i w).0 _ (eq_refl (charge_with_token i w).0.id)
        (λ x h. h))

  without_token-stored :
      find (λ x. str_eq x.id (fail_without_token i w).0.id) (fail_without_token i w).1.payments
      ≡ some (fail_without_token i w).0
  unfolding fail_without_token insert_payment find
  without_token-stored = grind (arith, emit-payments, eq_refl (fail_without_token i w).0.id)

-- A payment of an invoice that was tried: it succeeded at that time, or failed and was not paid.
pub record IsTried (i : Invoice) (now : ℕ) (p : Payment) : Type 0 where
  pub of_invoice : p.invoice_id ≡ i.id
  pub of_merchant : p.merchant_id ≡ i.merchant_id
  pub of_subscription : p.subscription_id ≡ i.subscription_id
  pub whole_amount : p.amount ≡ i.total
  pub is_settled :
      (p.status ≡ PaymentStatus.succeeded) × (p.paid_at ≡ some now)
      ⊎ (p.status ≡ PaymentStatus.failed) × (p.paid_at ≡ none)

with_token-IsTried : (i : Invoice) (w : World) → IsTried i w.now (charge_with_token i w).0
unfolding charge_with_token settled new_payment charge insert_payment
with_token-IsTried i w = ground arith

without_token-IsTried : (i : Invoice) (w : World) → IsTried i w.now (fail_without_token i w).0
unfolding fail_without_token new_payment
without_token-IsTried i w = ground arith

-- A charge that answers a payment has stored it under its identifier; the payment is of the invoice's
-- whole total, and either succeeded at that time or failed without a time of payment.
pub charge_invoice-IsTried :
    (i : Invoice) (w : World) {p : Payment}
    → (charge_invoice i w).0 ≡ ok p
    → (find (λ x. str_eq x.id p.id) (charge_invoice i w).1.payments ≡ some p) × IsTried i w.now p
unfolding charge_invoice find_customer
charge_invoice-IsTried i w {p} h =
    elim (Option-cases (find (is_customer i.merchant_id i.customer_id) w.customers)) [
      | inl missing ↦ ground arith
      | inr (c, found) ↦ elim (Bool-cases (truthy c.monnify_card_token)) [
        | inl token ↦
            let e : (charge_with_token i w).0 ≡ p = ground arith in
            let after : (charge_invoice i w).1 ≡ (charge_with_token i w).1 = ground arith in
            (rw after (rw (← e) (with_token-stored i w)), rw (← e) (with_token-IsTried i w))
        | inr no_token ↦
            let e : (fail_without_token i w).0 ≡ p = ground arith in
            let after : (charge_invoice i w).1 ≡ (fail_without_token i w).1 = ground arith in
            (rw after (rw (← e) (without_token-stored i w)), rw (← e) (without_token-IsTried i w))
      ]
    ]
