-- ===== src/Webhooks.antt =====
-- The webhooks of the merchants: src/webhooks/webhooks.service.ts. The signature header and the
-- times in the headers are not part of the state.
pub mod Delivery
pub mod Dispatch
pub mod Frame
use mathlib.Core.List.{reverse}
use subscription_billing_eng.Prelude.{
  ℕ, Bool, true, false, String, Option, none, some, List, [], ◌∷◌, ◌&&◌, ◌||◌, ◌==◌, str_eq, filter,
  or_else, length, if◌then◌else◌,
}
use subscription_billing_eng.Entities.{
  Webhook, WebhookEventType, webhook_event_code, WebhookDeliveryStatus,
}
use subscription_billing_eng.World.{
  World, WebhookDelivery, WebhookPayload, EventStore, next_id, draw, enqueue_webhook,
}
use subscription_billing_eng.Events.{find_for_replay, ReplayFilters}
use subscription_billing_eng.Events.DomainEvent

pub record CreateWebhookDto : Type 0 where
  pub url : String
  pub events : List WebhookEventType
  pub description : Option String
  pub is_active : Option Bool

-- EVENT_TYPE_MAP, at an event's type.
abbrev event_type_map : List (String × WebhookEventType)
event_type_map =
    (DomainEvent.subscription_created, WebhookEventType.subscription_created)
    ∷ (DomainEvent.subscription_updated, WebhookEventType.subscription_updated)
    ∷ (DomainEvent.subscription_cancelled, WebhookEventType.subscription_cancelled)
    ∷ (DomainEvent.subscription_renewed, WebhookEventType.subscription_renewed)
    ∷ (DomainEvent.payment_failed, WebhookEventType.payment_failed)
    ∷ (DomainEvent.payment_recovered, WebhookEventType.payment_recovered)
    ∷ (DomainEvent.invoice_paid, WebhookEventType.invoice_paid)
    ∷ []

lookup_type : List (String × WebhookEventType) → String → Option WebhookEventType
lookup_type [] t = none
lookup_type ((k, v) ∷ rest) t = if str_eq k t then some v else lookup_type rest t

unfoldable pub webhook_event_type : String → Option WebhookEventType
unfolding lookup_type
webhook_event_type t = lookup_type event_type_map t

-- `create`.
unfoldable pub create_webhook : String → CreateWebhookDto → World → Webhook × World
create_webhook m dto w =
    let hook : Webhook = record {
      id = next_id w;
      merchant_id = m;
      url = dto.url;
      secret = w.random_token w.draws;
      events = dto.events;
      is_active = or_else dto.is_active true;
      description = dto.description;
    } in
    (hook, draw (record w { webhooks = hook ∷ w.webhooks }))

-- `webhook.events.includes(eventType)`.
unfoldable pub subscribes : List WebhookEventType → WebhookEventType → Bool
subscribes [] t = false
subscribes (x ∷ xs) t = webhook_event_code x == webhook_event_code t || subscribes xs t

unfoldable pub new_delivery : EventStore → WebhookEventType → Webhook → World → WebhookDelivery
new_delivery e t hook w = record {
  id = next_id w;
  merchant_id = e.merchant_id;
  webhook_id = hook.id;
  event_type = t;
  payload = record {
    id = e.id;
    type = t;
    body = e.payload;
    created_at = e.created_at;
    correlation_id = e.correlation_id;
  };
  status = WebhookDeliveryStatus.pending;
  attempt_count = 0;
  response_status_code = none;
  response_body = none;
  next_retry_at = none;
  delivered_at = none;
}

-- One delivery of an event to a webhook, stored and queued.
unfoldable pub dispatch_one : EventStore → WebhookEventType → Webhook → World → World
unfolding new_delivery
dispatch_one e t hook w =
    let d = new_delivery e t hook w in
    enqueue_webhook (record { delivery_id = d.id; delay = none })
      (draw (record w { deliveries = d ∷ w.deliveries }))

unfoldable pub dispatch_all : EventStore → WebhookEventType → List Webhook → World → World
unfolding subscribes
dispatch_all e t [] w = w
dispatch_all e t (hook ∷ hooks) w =
    dispatch_all e t hooks (if subscribes hook.events t then dispatch_one e t hook w else w)

-- The active webhooks of the event's merchant.
abbrev pub is_active_of : String → Webhook → Bool
is_active_of m hook = str_eq hook.merchant_id m && hook.is_active

-- `dispatchForEvent`: an event of no webhook type is not sent.
unfoldable pub dispatch_for_event : EventStore → World → World
unfolding webhook_event_type filter
dispatch_for_event e w = elim (webhook_event_type e.event_type) [
  | none ↦ w
  | some t ↦ dispatch_all e t (filter (is_active_of e.merchant_id) w.webhooks) w
]

dispatch_events : List EventStore → World → World
dispatch_events [] w = w
dispatch_events (e ∷ es) w = dispatch_events es (dispatch_for_event e w)

-- `replay`: the number of events matched, and each of them sent again.
unfoldable pub replay : String → ReplayFilters → World → ℕ × World
unfolding dispatch_events
replay m f w = let es = find_for_replay m f w in (length es, dispatch_events es w)
