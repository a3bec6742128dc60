-- ===== src/Webhooks/Frame.antt =====
-- What `dispatchForEvent` of src/webhooks/webhooks.service.ts writes.
use subscription_billing_eng.Prelude.{
  List, [], ◌∷◌, ◌≡◌, refl, inl, inr, filter, Bool-cases, Option-cases,
}
use subscription_billing_eng.Entities.{Webhook, WebhookEventType}
use subscription_billing_eng.World.{World, EventStore, enqueue_webhook}
use subscription_billing_eng.Webhooks.{
  subscribes, dispatch_one, dispatch_all, dispatch_for_event, is_active_of, webhook_event_type,
}

-- A state with the deliveries of another.
abbrev with_deliveries : World → World → World
with_deliveries w v = record w {
  deliveries = v.deliveries;
  webhooks_queue = v.webhooks_queue;
  draws = v.draws;
}

dispatch_all-writes :
    (e : EventStore) (t : WebhookEventType) (hooks : List Webhook) (w : World)
    → dispatch_all e t hooks w ≡ with_deliveries w (dispatch_all e t hooks w)
unfolding dispatch_all dispatch_one enqueue_webhook
dispatch_all-writes e t [] w = refl
dispatch_all-writes e t (hook ∷ hooks) w = elim (Bool-cases (subscribes hook.events t)) [
  | inl hit ↦ rw (dispatch_all, hit) (dispatch_all-writes e t hooks (dispatch_one e t hook w))
  | inr miss ↦ rw (dispatch_all, miss) (dispatch_all-writes e t hooks w)
]

pub dispatch_for_event-writes :
    (e : EventStore) (w : World)
    → dispatch_for_event e w ≡ with_deliveries w (dispatch_for_event e w)
unfolding dispatch_for_event
dispatch_for_event-writes e w = elim (Option-cases (webhook_event_type e.event_type)) [
  | inl other ↦ rw (other, dispatch_for_event) refl
  | inr (t, known) ↦
      rw (known, dispatch_for_event)
        (dispatch_all-writes e t (filter (is_active_of e.merchant_id) w.webhooks) w)
]
