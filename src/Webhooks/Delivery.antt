-- ===== src/Webhooks/Delivery.antt =====
-- One attempt to deliver: `deliver` and `scheduleRetry` of src/webhooks/webhooks.service.ts.
pub mod Attempts
use subscription_billing_eng.Prelude.{
  ℕ, suc, ◌+◌, ◌-◌, Bool, true, false, String, Option, none, some, List, [], ◌∷◌, leb, str_eq,
  length, get_elem?, or_else, if◌then◌else◌,
}
use subscription_billing_eng.Prelude.Table.{find}
use subscription_billing_eng.Entities.{Webhook, WebhookDeliveryStatus, EventData}
use subscription_billing_eng.World.{
  World, WebhookDelivery, FetchReply, FetchOutcome, Action, Error, ok, err, or_throw, throw,
  save_delivery, enqueue_webhook, draw,
}
use subscription_billing_eng.Events.{emit}
use subscription_billing_eng.Events.DomainEvent
use subscription_billing_eng.Chaos.{should_fail_webhook}

-- RETRY_DELAYS_MS.
abbrev pub retry_delays_ms : List ℕ
retry_delays_ms = 60000 ∷ 300000 ∷ 900000 ∷ 3600000 ∷ 14400000 ∷ []

-- `delay` of an attempt that has been counted.
abbrev pub retry_delay : ℕ → ℕ
retry_delay attempt_count = or_else (get_elem? retry_delays_ms (attempt_count - 1)) 0

-- `scheduleRetry`: the changed delivery, and its next job.
unfoldable pub schedule_retry : WebhookDelivery → World → WebhookDelivery × World
schedule_retry d w =
    if leb (length retry_delays_ms) d.attempt_count
    then (record d { status = WebhookDeliveryStatus.dead_letter }, w)
    else (
      record d {
        status = WebhookDeliveryStatus.failed;
        next_retry_at = some (w.now + retry_delay d.attempt_count);
      },
      enqueue_webhook (record { delivery_id = d.id; delay = some (retry_delay d.attempt_count) }) w,
    )

-- A delivery whose attempt failed is counted, scheduled again and saved.
unfoldable pub fail_attempt : Option ℕ → String → WebhookDelivery → World → World
unfolding schedule_retry
fail_attempt code body d w =
    let (d', w') =
      schedule_retry
        (record d {
          attempt_count = d.attempt_count + 1;
          response_status_code = code;
          response_body = some body;
        })
        w in
    save_delivery d' w'

-- A delivery that the endpoint accepted.
unfoldable pub accepted : FetchReply → ℕ → WebhookDelivery → WebhookDelivery
accepted r now d = record d {
  response_status_code = some r.status;
  response_body = some r.text;
  attempt_count = d.attempt_count + 1;
  status = WebhookDeliveryStatus.delivered;
  delivered_at = some now;
}

-- What the outcome of the request does.
unfoldable pub settle_delivery : FetchOutcome → WebhookDelivery → World → World
unfolding accepted
settle_delivery (FetchOutcome.threw message) d w = fail_attempt d.response_status_code message d w
settle_delivery (FetchOutcome.answered r) d w =
    if r.is_ok
    then save_delivery (accepted r w.now d) (
        emit DomainEvent.webhook_sent
          (record {
            merchant_id = d.merchant_id;
            aggregate_type = "webhook";
            aggregate_id = d.id;
            correlation_id = some d.payload.correlation_id;
            body = EventData.webhook_sent d.webhook_id d.event_type r.status;
          })
          w)
    else fail_attempt (some r.status) r.text d w

abbrev pub chaos_body : String
chaos_body = "Chaos injected webhook failure"

-- The attempt itself, with the webhook found.
unfoldable pub try_delivery : WebhookDelivery → World → World
unfolding settle_delivery fail_attempt
try_delivery d w =
    if should_fail_webhook d.merchant_id w
    then fail_attempt (some 500) chaos_body d w
    else settle_delivery (w.fetch_reply w.draws) d (draw w)

-- `where: { id }`.
unfoldable pub delivery_by_id : String → World → Option WebhookDelivery
unfolding find
delivery_by_id id w = find (λ d. str_eq d.id id) w.deliveries

unfoldable pub webhook_by_id : String → World → Option Webhook
unfolding find
webhook_by_id id w = find (λ h. str_eq h.id id) w.webhooks

-- `deliver`.
unfoldable pub deliver : String → Action (Unit {0})
unfolding try_delivery
deliver id w = elim (delivery_by_id id w) [
  | none ↦ throw (Error.not_found "Delivery not found") w
  | some d ↦ elim (webhook_by_id d.webhook_id w) [
    | none ↦ (ok tt, w)
    | some hook ↦ (ok tt, try_delivery d w)
  ]
]
