-- ===== src/Notifications/Queueing.antt =====
-- Proofs on `queueForEvent` of src/notifications/notifications.service.ts.
use subscription_billing_eng.Prelude.{
  String, none, some, true, ◌≡◌, refl, arith, str_eq, ap, ◌∙◌, Option-cases, Bool-cases, inl, inr,
  truthy,
}
use subscription_billing_eng.World.{World, EventStore, Result-cases}
use subscription_billing_eng.World.Frame.{if-keeps}
use subscription_billing_eng.Entities.{Payment, Invoice, EventData}
use subscription_billing_eng.Mail.Recipients.{subscription_customer, invoice_customer}
use subscription_billing_eng.Events.DomainEvent
use subscription_billing_eng.Recovery.Links.{create_links}
use subscription_billing_eng.Mail.Payload.{payload_invoice, is_activated}
use subscription_billing_eng.Mail.Recipients.{resolve_recipient}
use subscription_billing_eng.Mail.Templates.{
  resolve_template, subscription_created_mail, subscription_activated_mail,
  subscription_cancelled_mail, subscription_renewed_mail, invoice_paid_mail, payment_failed_mail,
  payment_recovered_mail, failure_links,
}
use subscription_billing_eng.Notifications.{
  queue_email_for_event, queue_phone_channels, queue_for_event, queue_notification,
  email_notification, resolve_message,
}

-- A state with the notifications and the recovery links of another.
abbrev pub with_notifications : World → World → World
with_notifications w v = record w {
  notifications = v.notifications;
  notifications_queue = v.notifications_queue;
  recovery_links = v.recovery_links;
  draws = v.draws;
}

-- Nothing but notifications and recovery links was written.
abbrev pub Notifies : World → World → Type 0
Notifies w v = v ≡ with_notifications w v

pub failure_links-Notifies : (e : EventStore) (w : World) → Notifies w (failure_links e w).1
unfolding failure_links
failure_links-Notifies e w = elim (Option-cases (payload_invoice e.payload)) [
  | inl missing ↦ rw (failure_links, missing) refl
  | inr (i, found) ↦ elim (Bool-cases (truthy i.subscription_id)) [
    | inl owned ↦ rw (failure_links, found, owned) refl
    | inr alone ↦ rw (failure_links, found, alone) refl
  ]
]

module _ (e : EventStore) (w : World) where
  payment_failed_mail-state : (payment_failed_mail e w).1 ≡ (failure_links e w).1
  unfolding payment_failed_mail
  payment_failed_mail-state = ground arith

  subscription_created_mail-state : (subscription_created_mail e w).1 ≡ w
  unfolding subscription_created_mail
  subscription_created_mail-state = ground arith

  subscription_activated_mail-state : (subscription_activated_mail e w).1 ≡ w
  unfolding subscription_activated_mail
  subscription_activated_mail-state = refl

  subscription_cancelled_mail-state : (subscription_cancelled_mail e w).1 ≡ w
  unfolding subscription_cancelled_mail
  subscription_cancelled_mail-state = refl

  subscription_renewed_mail-state : (subscription_renewed_mail e w).1 ≡ w
  unfolding subscription_renewed_mail
  subscription_renewed_mail-state = ground arith

  invoice_paid_mail-state : (invoice_paid_mail e w).1 ≡ w
  unfolding invoice_paid_mail
  invoice_paid_mail-state = ground arith

  payment_recovered_mail-state : (payment_recovered_mail e w).1 ≡ w
  unfolding payment_recovered_mail
  payment_recovered_mail-state = ground arith

Notifies-trans : (w v u : World) → Notifies w v → Notifies v u → Notifies w u
Notifies-trans w v u h k = k ∙ ap (λ x. with_notifications x u) h

resolve_template-Notifies : (e : EventStore) (w : World) → Notifies w (resolve_template e w).1
unfolding resolve_template
resolve_template-Notifies e w =
    if-keeps (λ r. Notifies w r.1) (str_eq e.event_type DomainEvent.subscription_created) _ _ w
      (rw (subscription_created_mail-state e w) refl)
      (if-keeps (λ r. Notifies w r.1) (str_eq e.event_type DomainEvent.subscription_updated) _ _ w
        (if-keeps (λ r. Notifies w r.1) (is_activated e.payload) _ _ w
          (rw (subscription_activated_mail-state e w) refl) refl)
        (if-keeps (λ r. Notifies w r.1) (str_eq e.event_type DomainEvent.subscription_cancelled) _ _
          w (rw (subscription_cancelled_mail-state e w) refl)
          (if-keeps (λ r. Notifies w r.1) (str_eq e.event_type DomainEvent.subscription_renewed) _ _
            w (rw (subscription_renewed_mail-state e w) refl)
            (if-keeps (λ r. Notifies w r.1) (str_eq e.event_type DomainEvent.invoice_paid) _ _ w
              (rw (invoice_paid_mail-state e w) refl)
              (if-keeps (λ r. Notifies w r.1) (str_eq e.event_type DomainEvent.payment_failed) _ _ w
                (rw (payment_failed_mail-state e w) (failure_links-Notifies e w))
                (if-keeps (λ r. Notifies w r.1) (str_eq e.event_type DomainEvent.payment_recovered)
                  _ _ w (rw (payment_recovered_mail-state e w) refl) refl))))))

queue_email-Notifies : (e : EventStore) (w : World) → Notifies w (queue_email_for_event e w).1
queue_email-Notifies e w = elim (Result-cases (resolve_template e w).0) [
  | inl (x, thrown) ↦
      let kept : (queue_email_for_event e w).1 ≡ v = unfold queue_email_for_event in ground arith in
      rw kept before
  | inr (none, nothing) ↦
      let kept : (queue_email_for_event e w).1 ≡ v = unfold queue_email_for_event in ground arith in
      rw kept before
  | inr (some t, found) ↦ elim (Option-cases (resolve_recipient e v)) [
    | inl nobody ↦
        let kept : (queue_email_for_event e w).1 ≡ v =
          unfold queue_email_for_event in ground arith in
        rw kept before
    | inr (to, known) ↦
        let queued : (queue_email_for_event e w).1
            ≡ queue_notification (email_notification e to t v) v =
          unfold queue_email_for_event in ground arith in
        rw queued (
          Notifies-trans w v (queue_notification (email_notification e to t v) v) before
            (unfold queue_notification in refl))
  ]
]
  where
    v : World
    v = (resolve_template e w).1

    before : Notifies w v
    before = resolve_template-Notifies e w

resolve_message-state : (e : EventStore) (w : World) → (resolve_message e w).1 ≡ w
unfolding resolve_message
resolve_message-state e w =
    if-keeps (λ r. r.1 ≡ w) (str_eq e.event_type DomainEvent.payment_failed) _ _ w (ground arith)
      (if-keeps (λ r. r.1 ≡ w) (str_eq e.event_type DomainEvent.payment_recovered) _ _ w
        (ground arith) refl)

queue_phone-Notifies : (e : EventStore) (w : World) → Notifies w (queue_phone_channels e w).1
unfolding queue_phone_channels
queue_phone-Notifies e w = ground (arith, resolve_message-state e w)

-- Nothing but notifications and recovery links is written for an event.
pub queue_for_event-Notifies : (e : EventStore) (w : World) → Notifies w (queue_for_event e w).1
queue_for_event-Notifies e w = elim (Result-cases (queue_email_for_event e w).0) [
  | inl (x, thrown) ↦
      let kept : (queue_for_event e w).1 ≡ v = unfold queue_for_event in ground arith in
      rw kept before
  | inr (u, done) ↦
      let went : (queue_for_event e w).1 ≡ (queue_phone_channels e v).1 =
        unfold queue_for_event in ground arith in
      rw went (Notifies-trans w v (queue_phone_channels e v).1 before (queue_phone-Notifies e v))
]
  where
    v : World
    v = (queue_email_for_event e w).1

    before : Notifies w v
    before = queue_email-Notifies e w

resolve_failed :
    (e : EventStore) (w : World)
    → e.event_type ≡ DomainEvent.payment_failed
    → resolve_template e w ≡ payment_failed_mail e w
unfolding resolve_template
resolve_failed e w typed = rw typed refl

-- A failed payment whose stored payload carries no customer is told to nobody by e-mail, although
-- the three links of the e-mail are made and stay redeemable.
failed_mail_unsent :
    (e : EventStore) (w : World) {p : Payment} {i : Invoice} {id : String}
    → e.event_type ≡ DomainEvent.payment_failed
    → e.payload ≡ EventData.payment_failed p i
    → (w.payload_relations e.id).invoice_customer ≡ none
    → i.subscription_id ≡ some id
    → truthy (some id) ≡ true
    → ((queue_email_for_event e w).1.notifications ≡ w.notifications)
      × ((queue_email_for_event e w).1.notifications_queue ≡ w.notifications_queue)
      × ((queue_email_for_event e w).1.recovery_links
          ≡ (create_links e.merchant_id id w).1.recovery_links)
unfolding queue_email_for_event payment_failed_mail failure_links subscription_customer
    invoice_customer
failed_mail_unsent e w typed carries alone owned named = ground (arith, resolve_failed e w typed)
