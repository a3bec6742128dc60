-- ===== src/Notifications/Answering.antt =====
-- Proofs that the notifications of an event are queued without an exception, where the currencies are
-- known: src/notifications/notifications.service.ts and src/mail/email-template.registry.ts.
use subscription_billing_eng.Prelude.{
  ℕ, Bool, true, false, String, or_else, or_option, none, some, Option, ◌≡◌, refl, arith, str_eq,
  ap, ◌∙◌,
}
use subscription_billing_eng.World.{World, EventStore, Result, ok, err}
use subscription_billing_eng.World.Frame.{if-keeps}
use subscription_billing_eng.Events.DomainEvent
use subscription_billing_eng.Mail.Payload.{
  is_activated, payload_plan, payload_invoice, payment_amount, payment_currency, invoice_amount,
  invoice_currency,
}
use subscription_billing_eng.Mail.Templates.{
  resolve_template, subscription_created_mail, subscription_activated_mail,
  subscription_cancelled_mail, subscription_renewed_mail, invoice_paid_mail, payment_failed_mail,
  payment_recovered_mail, failure_links, format_amount, plan_amount, plan_currency,
  subscription_plan,
}
use subscription_billing_eng.Notifications.{queue_email_for_event, queue_for_event}
use subscription_billing_eng.Notifications.Queueing.{failure_links-Notifies}

-- `Intl.NumberFormat` formats every amount in this currency, or in `NGN` where there is none.
abbrev Formats : World → Option String → Type 0
Formats w c = (a : ℕ) → (t : String) × (w.format_currency a (or_else c "NGN") ≡ some t)

-- The currency of the invoice of a renewal, or else of the plan.
abbrev renewal_currency : EventStore → World → Option String
renewal_currency e w =
    or_option (elim (payload_invoice e.payload) [ none ↦ none | some i ↦ some i.currency ])
      (plan_currency (subscription_plan e w))

-- It formats the currencies that the templates read of the event.
abbrev pub FormatsCurrencies : EventStore → World → Type 0
FormatsCurrencies e w =
    Formats w (plan_currency (payload_plan e.payload))
    × Formats w (renewal_currency e w)
    × Formats w (invoice_currency e.payload)
    × Formats w (payment_currency e.payload)

-- An answer, not an exception.
abbrev answered : {A : Type 0} → Result A → Bool
answered (ok a) = true
answered (err e) = false

abbrev Answers : {A : Type 0} → Result A × World → Type 0
Answers r = answered r.0 ≡ true

format_amount-Answers :
    (amount : Option ℕ) (currency : Option String) (w : World)
    → Formats w currency
    → Answers (format_amount amount currency w)
unfolding format_amount
format_amount-Answers none currency w known = refl
format_amount-Answers (some a) currency w known = rw (format_amount, (known a).1) refl

module _ (e : EventStore) (w : World) (known : FormatsCurrencies e w) where
  subscription_created_mail-Answers : Answers (subscription_created_mail e w)
  unfolding subscription_created_mail
  subscription_created_mail-Answers = ground (
    arith,
    format_amount-Answers (plan_amount (payload_plan e.payload))
        (plan_currency (payload_plan e.payload)) w known.0,
  )

  subscription_renewed_mail-Answers : Answers (subscription_renewed_mail e w)
  unfolding subscription_renewed_mail
  subscription_renewed_mail-Answers = ground (
    arith,
    format_amount-Answers
        (or_option (elim (payload_invoice e.payload) [ none ↦ none | some i ↦ some i.total ])
          (plan_amount (subscription_plan e w)))
        (renewal_currency e w) w known.1,
  )

  invoice_paid_mail-Answers : Answers (invoice_paid_mail e w)
  unfolding invoice_paid_mail
  invoice_paid_mail-Answers = ground (
    arith,
    format_amount-Answers (invoice_amount e.payload) (invoice_currency e.payload) w known.2,
  )

  payment_recovered_mail-Answers : Answers (payment_recovered_mail e w)
  unfolding payment_recovered_mail
  payment_recovered_mail-Answers = ground (
    arith,
    format_amount-Answers (payment_amount e.payload) (payment_currency e.payload) w known.3,
  )

  still_known : Formats (failure_links e w).1 (payment_currency e.payload)
  still_known a =
      let (t, printed) = known.3 a in
      (
        t,
        ap (λ v. v.format_currency a (or_else (payment_currency e.payload) "NGN"))
              (failure_links-Notifies e w)
            ∙ printed,
      )

  payment_failed_mail-Answers : Answers (payment_failed_mail e w)
  unfolding payment_failed_mail
  payment_failed_mail-Answers = ground (
    arith,
    format_amount-Answers (payment_amount e.payload) (payment_currency e.payload)
        (failure_links e w).1 still_known,
  )

  resolve_template-Answers : Answers (resolve_template e w)
  unfolding resolve_template subscription_activated_mail subscription_cancelled_mail
  resolve_template-Answers =
      if-keeps Answers (str_eq e.event_type DomainEvent.subscription_created) _ _ w
        subscription_created_mail-Answers
        (if-keeps Answers (str_eq e.event_type DomainEvent.subscription_updated) _ _ w
          (if-keeps Answers (is_activated e.payload) _ _ w refl refl)
          (if-keeps Answers (str_eq e.event_type DomainEvent.subscription_cancelled) _ _ w refl (
            if-keeps Answers (str_eq e.event_type DomainEvent.subscription_renewed) _ _ w
              subscription_renewed_mail-Answers
              (if-keeps Answers (str_eq e.event_type DomainEvent.invoice_paid) _ _ w
                invoice_paid_mail-Answers
                (if-keeps Answers (str_eq e.event_type DomainEvent.payment_failed) _ _ w
                  payment_failed_mail-Answers
                  (if-keeps Answers (str_eq e.event_type DomainEvent.payment_recovered) _ _ w
                    payment_recovered_mail-Answers refl))))))

  -- The telephone channels never make an event fail, and the templates do not either.
  pub queue_for_event-ok : (queue_for_event e w).0 ≡ ok tt
  unfolding queue_for_event queue_email_for_event
  queue_for_event-ok = ground (arith, resolve_template-Answers)
