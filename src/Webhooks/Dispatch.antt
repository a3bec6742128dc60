-- ===== src/Webhooks/Dispatch.antt =====
-- What `dispatchForEvent` of src/webhooks/webhooks.service.ts sends.
use mathlib.Core.List.{reverse_aux, map}
use subscription_billing_eng.Prelude.{
  some, none, List, [], ◌∷◌, ◌≡◌, inl, inr, refl, ap, filter, All, Bool-cases,
}
use subscription_billing_eng.Entities.{Webhook, WebhookEventType, WebhookDeliveryStatus}
use subscription_billing_eng.World.{World, EventStore, WebhookDelivery, WebhookJob, enqueue_webhook}
use subscription_billing_eng.Webhooks.{
  subscribes, new_delivery, dispatch_one, dispatch_all, is_active_of, dispatch_for_event,
  webhook_event_type,
}

-- A delivery of an event that has not been tried.
abbrev pub IsFresh : EventStore → WebhookEventType → WebhookDelivery → Type 0
IsFresh e t d =
    (d.event_type ≡ t)
    × (d.status ≡ WebhookDeliveryStatus.pending)
    × (d.attempt_count ≡ 0)
    × (d.payload.id ≡ e.id)
    × (d.payload.body ≡ e.payload)
    × (d.payload.correlation_id ≡ e.correlation_id)

abbrev pub first_job : WebhookDelivery → WebhookJob
first_job d = record { delivery_id = d.id; delay = none }

-- The deliveries `ds`, in the order of the webhooks, were stored and queued.
abbrev pub Sends : EventStore → WebhookEventType → List Webhook → World → World → Type 0
Sends e t hooks w w' =
    (ds : List WebhookDelivery) × (map (λ d. d.webhook_id) ds ≡ map (λ h. h.id) hooks)
    × All (IsFresh e t) ds
    × (w'.deliveries ≡ reverse_aux ds w.deliveries)
    × (w'.webhooks_queue ≡ reverse_aux (map first_job ds) w.webhooks_queue)

-- A webhook that is sent to first.
Sends-cons :
    (e : EventStore) (t : WebhookEventType) (hook : Webhook) (hooks : List Webhook) (w w' : World)
    → Sends e t hooks (dispatch_one e t hook w) w'
    → Sends e t (hook ∷ hooks) w w'
unfolding dispatch_one new_delivery enqueue_webhook
Sends-cons e t hook hooks w w' (ds, ids, fresh, stored, queued) = (
  new_delivery e t hook w ∷ ds,
  ap (λ l. hook.id ∷ l) ids,
  ((refl, refl, refl, refl, refl, refl), fresh),
  stored,
  queued,
)

dispatch_all-Sends :
    (e : EventStore) (t : WebhookEventType) (hooks : List Webhook) (w : World)
    → Sends e t (filter (λ h. subscribes h.events t) hooks) w (dispatch_all e t hooks w)
unfolding dispatch_all filter
dispatch_all-Sends e t [] w = ([], refl, tt, refl, refl)
dispatch_all-Sends e t (hook ∷ hooks) w = elim (Bool-cases (subscribes hook.events t)) [
  | inr miss ↦ rw (filter, dispatch_all, miss) (dispatch_all-Sends e t hooks w)
  | inl hit ↦
      rw (filter, dispatch_all, hit)
        (Sends-cons e t hook (filter (λ h. subscribes h.events t) hooks) w
          (dispatch_all e t hooks (dispatch_one e t hook w))
          (dispatch_all-Sends e t hooks (dispatch_one e t hook w)))
]

-- An event of a webhook type is sent once to each active webhook of its merchant that subscribes to
-- the type, in their order: a new delivery that was not tried is stored and queued for each, and
-- nothing else is.
pub dispatch_for_event-Sends :
    (e : EventStore) (w : World) {t : WebhookEventType}
    → webhook_event_type e.event_type ≡ some t
    → Sends e t
        (filter (λ h. subscribes h.events t) (filter (is_active_of e.merchant_id) w.webhooks))
        w
        (dispatch_for_event e w)
unfolding dispatch_for_event
dispatch_for_event-Sends e w {t} known =
    rw (dispatch_for_event, known)
      (dispatch_all-Sends e t (filter (is_active_of e.merchant_id) w.webhooks) w)
