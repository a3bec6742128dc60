-- ===== src/Mail/Templates.antt =====
-- src/mail/email-template.registry.ts. The number of the invoice, which the template of a paid
-- invoice prints, is left out.
use Prim.Native.String
use subscription_billing_eng.Prelude.{
  ℕ, String, Option, none, some, or_else, or_option, truthy, str_eq, if◌then◌else◌,
}
use subscription_billing_eng.Entities.{Customer, Plan, EmailContext}
use subscription_billing_eng.World.{World, Action, Error, EventStore, ok, err, pure, ◌>>=◌}
use subscription_billing_eng.Events.DomainEvent
use subscription_billing_eng.Recovery.Links.{RecoveryLinkUrls, create_links}
use subscription_billing_eng.Mail.Payload.{
  payload_customer, payload_plan, payload_subscription, payload_invoice, payload_payment,
  is_activated, payment_amount, invoice_amount, payment_currency, invoice_currency,
}
use subscription_billing_eng.Mail.Recipients.{subscription_customer}

pub record EmailTemplateDefinition : Type 0 where
  pub template : String
  pub subject : String
  pub context : EmailContext

-- `formatAmount`: absent without an amount, and an exception at a currency that is not known.
unfoldable pub format_amount : Option ℕ → Option String → Action (Option String)
format_amount none currency w = (ok none, w)
format_amount (some amount) currency w = elim (w.format_currency amount (or_else currency "NGN")) [
  | none ↦
      (err (Error.failure (String.◌++◌ "Invalid currency code : " (or_else currency "NGN"))), w)
  | some printed ↦ (ok (some printed), w)
]

abbrev plain_context : String → Option String → Option String → EmailContext
plain_context name plan amount = record {
  customer_name = name;
  plan_name = plan;
  amount = amount;
  failure_reason = none;
  retry_url = none;
  pause_url = none;
  cancel_url = none;
}

-- `readString(customer?.name) ?? 'there'`.
abbrev customer_name : Option Customer → String
customer_name none = "there"
customer_name (some c) = c.name

abbrev plan_name : Option Plan → String
plan_name none = "your plan"
plan_name (some p) = p.name

abbrev pub plan_amount : Option Plan → Option ℕ
plan_amount none = none
plan_amount (some p) = some p.amount

abbrev pub plan_currency : Option Plan → Option String
plan_currency none = none
plan_currency (some p) = some p.currency

-- `subscription?.plan`.
unfoldable pub subscription_plan : EventStore → World → Option Plan
unfolding payload_subscription
subscription_plan e w = elim (payload_subscription e.payload) [
  | none ↦ none
  | some s ↦ (w.payload_relations e.id).subscription_plan
]

unfoldable pub subscription_created_mail : EventStore → Action (Option EmailTemplateDefinition)
unfolding format_amount payload_customer payload_plan
subscription_created_mail e = do
  let plan = payload_plan e.payload
  amount ← format_amount (plan_amount plan) (plan_currency plan)
  pure (
      some (record {
        template = "emails/subscription-created";
        subject = "Complete your subscription";
        context =
            plain_context (customer_name (payload_customer e.payload)) (some (plan_name plan))
              amount;
      }))

unfoldable pub subscription_activated_mail : EventStore → Action (Option EmailTemplateDefinition)
unfolding payload_customer payload_plan subscription_customer subscription_plan
subscription_activated_mail e w =
    let customer = or_option (payload_customer e.payload) (subscription_customer e w) in
    let plan = or_option (payload_plan e.payload) (subscription_plan e w) in
    (
      ok (
          some (record {
            template = "emails/subscription-activated";
            subject = "Your subscription is now active";
            context = plain_context (customer_name customer) (some (plan_name plan)) none;
          })),
      w,
    )

unfoldable pub subscription_cancelled_mail : EventStore → Action (Option EmailTemplateDefinition)
unfolding subscription_customer
subscription_cancelled_mail e w = (
  ok (
      some (record {
        template = "emails/subscription-cancelled";
        subject = "Your subscription has been cancelled";
        context = plain_context (customer_name (subscription_customer e w)) none none;
      })),
  w,
)

unfoldable pub subscription_renewed_mail : EventStore → Action (Option EmailTemplateDefinition)
unfolding format_amount payload_invoice subscription_customer subscription_plan
subscription_renewed_mail e w =
    let plan = subscription_plan e w in
    let invoice = payload_invoice e.payload in
    let total : Option ℕ = elim invoice [ none ↦ none | some i ↦ some i.total ] in
    let currency : Option String = elim invoice [ none ↦ none | some i ↦ some i.currency ] in
    (format_amount (or_option total (plan_amount plan)) (or_option currency (plan_currency plan))
        >>= λ amount. pure (
            some (record {
              template = "emails/subscription-renewed";
              subject = "Your subscription has been renewed";
              context =
                  plain_context (customer_name (subscription_customer e w)) (some (plan_name plan))
                    amount;
            })))
      w

unfoldable pub invoice_paid_mail : EventStore → Action (Option EmailTemplateDefinition)
unfolding format_amount invoice_amount invoice_currency subscription_customer
invoice_paid_mail e w =
    (format_amount (invoice_amount e.payload) (invoice_currency e.payload) >>= λ amount. pure (
        some (record {
          template = "emails/invoice-paid";
          subject = "Payment received — thank you";
          context = plain_context (customer_name (subscription_customer e w)) none amount;
        })))
      w

-- The links of a payment-failed e-mail, where the invoice has a subscription.
unfoldable pub failure_links : EventStore → World → Option RecoveryLinkUrls × World
unfolding payload_invoice create_links
failure_links e w = elim (payload_invoice e.payload) [
  | none ↦ (none, w)
  | some i ↦
      if truthy i.subscription_id
      then (let (links, w') = create_links e.merchant_id (or_else i.subscription_id "") w in
          (some links, w'))
      else (none, w)
]

unfoldable pub payment_failed_mail : EventStore → Action (Option EmailTemplateDefinition)
unfolding format_amount failure_links payload_payment payment_amount payment_currency
payment_failed_mail e = do
  links ← λ w. let (links, w') = failure_links e w in (ok links, w')
  amount ← format_amount (payment_amount e.payload) (payment_currency e.payload)
  pure (
      some (record {
        template = "emails/payment-failed";
        subject = "Action required: payment failed";
        context = record {
          customer_name = "there";
          plan_name = none;
          amount = amount;
          failure_reason = elim (payload_payment e.payload) [
            | none ↦ none
            | some p ↦ p.failure_reason
          ];
          retry_url = elim links [ none ↦ none | some l ↦ some l.retry_url ];
          pause_url = elim links [ none ↦ none | some l ↦ some l.pause_url ];
          cancel_url = elim links [ none ↦ none | some l ↦ some l.cancel_url ];
        };
      }))

unfoldable pub payment_recovered_mail : EventStore → Action (Option EmailTemplateDefinition)
unfolding format_amount payment_amount payment_currency
payment_recovered_mail e = do
  amount ← format_amount (payment_amount e.payload) (payment_currency e.payload)
  pure (
      some (record {
        template = "emails/payment-recovered";
        subject = "Your payment was successful";
        context = plain_context "there" none amount;
      }))

-- `resolve`: the switch on the type of the event.
unfoldable pub resolve_template : EventStore → Action (Option EmailTemplateDefinition)
resolve_template e =
    if str_eq e.event_type DomainEvent.subscription_created
    then subscription_created_mail e
    else if str_eq e.event_type DomainEvent.subscription_updated
    then (if is_activated e.payload then subscription_activated_mail e else pure none)
    else if str_eq e.event_type DomainEvent.subscription_cancelled
    then subscription_cancelled_mail e
    else if str_eq e.event_type DomainEvent.subscription_renewed
    then subscription_renewed_mail e
    else if str_eq e.event_type DomainEvent.invoice_paid
    then invoice_paid_mail e
    else if str_eq e.event_type DomainEvent.payment_failed
    then payment_failed_mail e
    else if str_eq e.event_type DomainEvent.payment_recovered
    then payment_recovered_mail e
    else pure none
