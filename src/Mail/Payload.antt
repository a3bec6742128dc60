-- ===== src/Mail/Payload.antt =====
-- The keys of an event's payload, as src/mail and src/notifications read them: `payload.customer`,
-- `payload.plan`, `payload.subscription`, `payload.invoice` and `payload.payment`.
use subscription_billing_eng.Prelude.{ℕ, Bool, false, String, Option, none, some, or_option}
use subscription_billing_eng.Entities.{Customer, Plan, Subscription, Invoice, Payment, EventData}

unfoldable pub payload_customer : EventData → Option Customer
payload_customer (EventData.subscription_created s c p i) = some c
payload_customer other = none

unfoldable pub payload_plan : EventData → Option Plan
payload_plan (EventData.subscription_created s c p i) = some p
payload_plan other = none

unfoldable pub payload_subscription : EventData → Option Subscription
payload_subscription (EventData.invoice_generated i s) = some s
payload_subscription (EventData.subscription_created s c p i) = some s
payload_subscription (EventData.subscription_only s) = some s
payload_subscription (EventData.subscription_renewed s i) = some s
payload_subscription (EventData.invoice_paid i p s) = s
payload_subscription (EventData.payment_recovered p i s via) = s
payload_subscription other = none

unfoldable pub payload_invoice : EventData → Option Invoice
payload_invoice (EventData.invoice_generated i s) = some i
payload_invoice (EventData.subscription_renewed s i) = some i
payload_invoice (EventData.invoice_paid i p s) = some i
payload_invoice (EventData.payment_failed p i) = some i
payload_invoice (EventData.payment_recovered p i s via) = some i
payload_invoice other = none

unfoldable pub payload_payment : EventData → Option Payment
payload_payment (EventData.invoice_paid i p s) = some p
payload_payment (EventData.payment_failed p i) = some p
payload_payment (EventData.payment_recovered p i s via) = some p
payload_payment other = none

-- `payload.activated === true`: no service emits the key.
unfoldable pub is_activated : EventData → Bool
is_activated payload = false

-- `payment?.amount ?? invoice?.total`.
unfoldable pub payment_amount : EventData → Option ℕ
unfolding payload_payment payload_invoice
payment_amount e =
    or_option (elim (payload_payment e) [ none ↦ none | some p ↦ some p.amount ])
      (elim (payload_invoice e) [ none ↦ none | some i ↦ some i.total ])

-- `invoice?.total ?? payment?.amount`.
unfoldable pub invoice_amount : EventData → Option ℕ
unfolding payload_payment payload_invoice
invoice_amount e =
    or_option (elim (payload_invoice e) [ none ↦ none | some i ↦ some i.total ])
      (elim (payload_payment e) [ none ↦ none | some p ↦ some p.amount ])

unfoldable pub payment_currency : EventData → Option String
unfolding payload_payment payload_invoice
payment_currency e =
    or_option (elim (payload_payment e) [ none ↦ none | some p ↦ some p.currency ])
      (elim (payload_invoice e) [ none ↦ none | some i ↦ some i.currency ])

unfoldable pub invoice_currency : EventData → Option String
unfolding payload_payment payload_invoice
invoice_currency e =
    or_option (elim (payload_invoice e) [ none ↦ none | some i ↦ some i.currency ])
      (elim (payload_payment e) [ none ↦ none | some p ↦ some p.currency ])
