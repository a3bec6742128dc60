-- ===== src/Mail/Recipients.antt =====
-- src/mail/email-recipient.resolver.ts. No payload has the keys `customerEmail` and `email`, so the
-- first step of `resolve` finds nothing.
use subscription_billing_eng.Prelude.{
  String, Option, none, some, or_option, is_empty, if◌then◌else◌,
}
use subscription_billing_eng.Entities.{Customer}
use subscription_billing_eng.World.{World, EventStore}
use subscription_billing_eng.Mail.Payload.{payload_customer, payload_subscription, payload_invoice}

-- `readEmail`.
unfoldable pub read_email : Option Customer → Option String
read_email none = none
read_email (some c) = if is_empty c.email then none else some c.email

-- `subscription?.customer` and `invoice?.customer`.
unfoldable pub subscription_customer : EventStore → World → Option Customer
unfolding payload_subscription
subscription_customer e w = elim (payload_subscription e.payload) [
  | none ↦ none
  | some s ↦ (w.payload_relations e.id).subscription_customer
]

unfoldable pub invoice_customer : EventStore → World → Option Customer
unfolding payload_invoice
invoice_customer e w = elim (payload_invoice e.payload) [
  | none ↦ none
  | some i ↦ (w.payload_relations e.id).invoice_customer
]

-- `resolve`.
unfoldable pub resolve_recipient : EventStore → World → Option String
unfolding read_email payload_customer
resolve_recipient e w =
    or_option (read_email (payload_customer e.payload))
      (or_option (read_email (subscription_customer e w)) (read_email (invoice_customer e w)))
