-- ===== src/Webhooks/Delivery/Attempts.antt =====
-- How often a delivery of src/webhooks/webhooks.service.ts is tried.
use subscription_billing_eng.Prelude.{
  ℕ, ◌+◌, ◌≤◌, ◌<◌, true, String, Option, some, List, ◌∷◌, ◌≡◌, ◌⊎◌, inl, inr, refl, arith, zero,
  suc, leb, or_else, str_eq, Bool-cases,
}
use subscription_billing_eng.Prelude.Table.{find-save, find-holds}
use subscription_billing_eng.World.Frame.{str_eq-join}
use subscription_billing_eng.Entities.{Webhook, WebhookDeliveryStatus}
use subscription_billing_eng.World.{
  World, WebhookDelivery, WebhookJob, FetchOutcome, ok, save_delivery, enqueue_webhook, draw,
}
use subscription_billing_eng.Events.Frame.{emit-deliveries, emit-webhooks_queue}
use subscription_billing_eng.Webhooks.Delivery.{
  retry_delay, schedule_retry, fail_attempt, accepted, settle_delivery, try_delivery,
  delivery_by_id, webhook_by_id, deliver, chaos_body,
}
use subscription_billing_eng.Chaos.{should_fail_webhook}

abbrev pub retry_of : WebhookDelivery → WebhookJob
retry_of d = record { delivery_id = d.id; delay = some (retry_delay d.attempt_count) }

-- What one attempt makes of a delivery: it is delivered, or it failed and is queued again, or it is
-- given up.
abbrev pub Tried : WebhookDelivery → List WebhookJob → List WebhookJob → Type 0
Tried d before after =
    ((d.status ≡ WebhookDeliveryStatus.delivered) × (after ≡ before))
    ⊎ (((d.status ≡ WebhookDeliveryStatus.failed)
          × (d.attempt_count < 5)
          × (after ≡ retry_of d ∷ before))
        ⊎ ((d.status ≡ WebhookDeliveryStatus.dead_letter)
            × (5 ≤ d.attempt_count)
            × (after ≡ before)))

-- The delivery that an attempt stores, with the queue after it.
abbrev pub Stored : WebhookDelivery → World → World → Type 0
Stored d w w' =
    (d' : WebhookDelivery) × (w'.deliveries ≡ (save_delivery d' w).deliveries)
    × (d'.id ≡ d.id)
    × (d'.attempt_count ≡ d.attempt_count + 1)
    × Tried d' w.webhooks_queue w'.webhooks_queue

abbrev counted : Option ℕ → String → WebhookDelivery → WebhookDelivery
counted code body d = record d {
  attempt_count = d.attempt_count + 1;
  response_status_code = code;
  response_body = some body;
}

fail_attempt-Stored :
    (code : Option ℕ) (body : String) (d : WebhookDelivery) (w : World)
    → Stored d w (fail_attempt code body d w)
unfolding fail_attempt schedule_retry save_delivery enqueue_webhook
fail_attempt-Stored code body d w = elim (Bool-cases (leb 5 (d.attempt_count + 1))) [
  | inl last ↦ (
    record (counted code body d) { status = WebhookDeliveryStatus.dead_letter },
    rw last refl,
    refl,
    refl,
    inr (inr (refl, ground arith, rw last refl)),
  )
  | inr more ↦ (
    record (counted code body d) {
      status = WebhookDeliveryStatus.failed;
      next_retry_at = some (w.now + retry_delay (d.attempt_count + 1));
    },
    rw more refl,
    refl,
    refl,
    inr (inl (refl, ground arith, rw more refl)),
  )
]

settle_delivery-Stored :
    (o : FetchOutcome) (d : WebhookDelivery) (w : World) → Stored d w (settle_delivery o d w)
unfolding settle_delivery
settle_delivery-Stored (FetchOutcome.threw message) d w =
    fail_attempt-Stored d.response_status_code message d w
settle_delivery-Stored (FetchOutcome.answered r) d w = elim (Bool-cases r.is_ok) [
  | inl good ↦ (
    accepted r w.now d,
    rw good (unfold save_delivery in rw (emit-deliveries) refl),
    unfold accepted in refl,
    unfold accepted in refl,
    inl (unfold accepted in refl, rw good (unfold save_delivery in rw (emit-webhooks_queue) refl)),
  )
  | inr bad ↦ rw bad (fail_attempt-Stored (some r.status) r.text d w)
]

try_delivery-Stored : (d : WebhookDelivery) (w : World) → Stored d w (try_delivery d w)
unfolding try_delivery
try_delivery-Stored d w = elim (Bool-cases (should_fail_webhook d.merchant_id w)) [
  | inl injected ↦ rw injected (fail_attempt-Stored (some 500) chaos_body d w)
  | inr sent ↦
      rw sent (unfold save_delivery in settle_delivery-Stored (w.fetch_reply w.draws) d (draw w))
]

-- One attempt at a stored delivery always returns and counts itself once. Afterwards the delivery is
-- delivered, or failed and queued once more, or, exactly when five attempts have been counted, dead:
-- a delivered or dead one is not queued again.
pub deliver_tries :
    (id : String) (w : World) {d : WebhookDelivery} {hook : Webhook}
    → delivery_by_id id w ≡ some d
    → webhook_by_id d.webhook_id w ≡ some hook
    → (d' : WebhookDelivery) × ((deliver id w).0 ≡ ok tt)
      × (delivery_by_id id (deliver id w).1 ≡ some d')
      × (d'.attempt_count ≡ d.attempt_count + 1)
      × Tried d' w.webhooks_queue (deliver id w).1.webhooks_queue
unfolding deliver delivery_by_id save_delivery
deliver_tries id w {d} {hook} found of_hook =
    let tried : deliver id w ≡ (ok tt, try_delivery d w) = ground arith in
    let (d', stored, same, count, outcome) = try_delivery-Stored d w in
    rw tried (d', refl, found_again d' stored same, count, outcome)
  where
    holds : str_eq d.id id ≡ true
    holds = find-holds (λ x. str_eq x.id id) w.deliveries (unfold delivery_by_id in found)

    found_again :
        (d' : WebhookDelivery)
        → (try_delivery d w).deliveries ≡ (save_delivery d' w).deliveries
        → d'.id ≡ d.id
        → delivery_by_id id (try_delivery d w) ≡ some d'
    found_again d' stored same = rw stored (
        find-save (λ x. x.id) (λ x. str_eq x.id id) d' w.deliveries (rw same holds)
          (λ x h. rw same (str_eq-join x.id d.id id h holds)))

-- Every retry that a failed attempt queues waits at most an hour: the four-hour delay that ends
-- RETRY_DELAYS_MS is never used, since the fifth failure is the last.
longest_retry_delay :
    (d : WebhookDelivery) (w : World)
    → ((schedule_retry d w).1 ≡ w)
      ⊎ ((j : WebhookJob) × ((schedule_retry d w).1.webhooks_queue ≡ j ∷ w.webhooks_queue)
          × (or_else j.delay 0 ≤ 3600000))
unfolding schedule_retry enqueue_webhook
longest_retry_delay d w = elim (Bool-cases (leb 5 d.attempt_count)) [
  | inl last ↦ inl (rw last refl)
  | inr more ↦ inr (retry_of d, rw more refl, short d.attempt_count (ground arith))
]
  where
    short : (n : ℕ) → n < 5 → retry_delay n ≤ 3600000
    short zero h = ground arith
    short (suc zero) h = ground arith
    short (suc (suc zero)) h = ground arith
    short (suc (suc (suc zero))) h = ground arith
    short (suc (suc (suc (suc zero)))) h = ground arith
    short (suc (suc (suc (suc (suc n))))) h = ground arith
