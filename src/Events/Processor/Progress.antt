-- ===== src/Events/Processor/Progress.antt =====
-- Proofs on `process` of src/events/events.processor.ts: an event is handled once, and what is left
-- when it throws.
use text.Mathlib.TextEquality.{eq_iff}
use subscription_billing_eng.Prelude.{
  ℕ, true, false, String, some, List, [], ◌∷◌, ◌≡◌, ◌⊎◌, inl, inr, refl, ap, ◌∙◌, arith, str_eq,
  Bool-cases, Option-cases, if◌then◌else◌,
}
use subscription_billing_eng.Prelude.Table.{find, find-holds}
use subscription_billing_eng.World.{World, Error, EventStore, Result-cases, ok, err}
use subscription_billing_eng.Events.{process_row, mark_processed, log}
use subscription_billing_eng.Events.Processor.{event_by_id, event_log, handle_event, process_event}
use subscription_billing_eng.Webhooks.{dispatch_for_event}
use subscription_billing_eng.Webhooks.Frame.{dispatch_for_event-writes}
use subscription_billing_eng.Notifications.{queue_for_event}
use subscription_billing_eng.Notifications.Queueing.{queue_for_event-Notifies}

-- The row of an event that was handled at that time.
abbrev pub handled : ℕ → EventStore → EventStore
handled now e = record e { processed = true; processed_at = some now }

-- What a search finds after an event was marked.
pub find-process_row :
    (j id : String) (now : ℕ) (es : List EventStore) {e : EventStore}
    → find (λ x. str_eq x.id id) es ≡ some e
    → find (λ x. str_eq x.id id) (process_row j now es)
      ≡ some (if str_eq j id then handled now e else e)
unfolding find process_row
find-process_row j id now [] found = cc
find-process_row j id now (x ∷ xs) {e} found =
    ground (arith, eq_iff x.id id, eq_iff x.id j, eq_iff j id, find-process_row j id now xs {e = e})

module _ (e : EventStore) (w : World) where
  -- The state in which the notifications are queued, and the one after it.
  abbrev pub sent : World
  sent = dispatch_for_event e w

  abbrev pub queued : World
  queued = (queue_for_event e sent).1

  queued-events : queued.events ≡ w.events
  queued-events =
      ap (λ v. v.events) (queue_for_event-Notifies e sent)
      ∙ ap (λ v. v.events) (dispatch_for_event-writes e w)

  queued-now : queued.now ≡ w.now
  queued-now =
      ap (λ v. v.now) (queue_for_event-Notifies e sent)
      ∙ ap (λ v. v.now) (dispatch_for_event-writes e w)

  -- Either the queueing threw, and nothing more was written, or the event was marked.
  pub handle_event_lem :
      ((x : Error) × ((queue_for_event e sent).0 ≡ err x) × (handle_event e w ≡ (err x, queued)))
      ⊎ (handle_event e w ≡ (ok tt, mark_processed e.id (log (event_log e) queued)))
  unfolding handle_event
  handle_event_lem = elim (Result-cases (queue_for_event e sent).0) [
    | inl (x, thrown) ↦ inl (x, thrown, ground arith)
    | inr (u, fine) ↦ inr (ground arith)
  ]

pub mark_processed_event :
    (id : String) (w : World) {e : EventStore}
    → event_by_id id w ≡ some e
    → event_by_id id (mark_processed e.id (log (event_log e) (queued e w)))
      ≡ some (handled (queued e w).now e)
unfolding event_by_id mark_processed log
mark_processed_event id w {e} found =
    let same : str_eq e.id id ≡ true = find-holds (λ x. str_eq x.id id) w.events found in
    find-process_row e.id id (queued e w).now (queued e w).events
      (ap (find (λ x. str_eq x.id id)) (queued-events e w) ∙ found)
    ∙ rw same refl

-- An event that was processed without an exception is processed at most once: a second job for it
-- changes nothing.
pub process_event_once :
    (id : String) (w : World)
    → (process_event id w).0 ≡ ok tt
    → process_event id (process_event id w).1 ≡ (ok tt, (process_event id w).1)
process_event_once id w fine = elim (Option-cases (event_by_id id w)) [
  | inl missing ↦
      let same : process_event id w ≡ (ok tt, w) = unfold process_event in ground arith in
      rw same same
  | inr (e, found) ↦ elim (Bool-cases e.processed) [
    | inl old ↦
        let same : process_event id w ≡ (ok tt, w) = unfold process_event in ground arith in
        rw same same
    | inr new ↦
        let goes : process_event id w ≡ handle_event e w = unfold process_event in ground arith in
        elim (handle_event_lem e w) [
          | inl (x, thrown, stops) ↦ cc
          | inr marked ↦
              let v = mark_processed e.id (log (event_log e) (queued e w)) in
              let seen : event_by_id id v ≡ some (handled (queued e w).now e) =
                mark_processed_event id w found in
              let again : process_event id v ≡ (ok tt, v) = unfold process_event in ground arith in
              rw (goes, marked) again
        ]
  ]
]

-- What a job does to the stored events: nothing, or it marks one of them.
pub process_event-events :
    (j : String) (w : World)
    → ((process_event j w).1.events ≡ w.events)
      ⊎ ((k : String) × (process_event j w).1.events ≡ process_row k w.now w.events)
process_event-events j w = elim (Option-cases (event_by_id j w)) [
  | inl missing ↦ inl (unfold process_event in ground arith)
  | inr (e, found) ↦ elim (Bool-cases e.processed) [
    | inl old ↦ inl (unfold process_event in ground arith)
    | inr new ↦
        let goes : process_event j w ≡ handle_event e w = unfold process_event in ground arith in
        elim (handle_event_lem e w) [
          | inl (x, thrown, stops) ↦ inl (rw (goes, stops) (queued-events e w))
          | inr marked ↦ inr (
            e.id,
            rw (goes, marked)
                (unfold mark_processed log in ground (arith, queued-events e w, queued-now e w)),
          )
        ]
  ]
]

-- A job that throws leaves its event unprocessed, and every event as it was, although the webhooks of
-- the event are stored and queued by then: the job is taken again, and sends them again.
process_event_thrown :
    (id : String) (w : World) {e : EventStore} {x : Error}
    → event_by_id id w ≡ some e
    → (process_event id w).0 ≡ err x
    → (e.processed ≡ false)
      × ((process_event id w).1.events ≡ w.events)
      × ((process_event id w).1.deliveries ≡ (dispatch_for_event e w).deliveries)
      × ((process_event id w).1.webhooks_queue ≡ (dispatch_for_event e w).webhooks_queue)
process_event_thrown id w {e} found throws = elim (Bool-cases e.processed) [
  | inl old ↦
      let same : process_event id w ≡ (ok tt, w) = unfold process_event in ground arith in cc
  | inr new ↦
      let goes : process_event id w ≡ handle_event e w = unfold process_event in ground arith in
      elim (handle_event_lem e w) [
        | inr marked ↦ cc
        | inl (y, thrown, stops) ↦
            rw (goes, stops)
              (
                new,
                queued-events e w,
                ap (λ v. v.deliveries) (queue_for_event-Notifies e (sent e w)),
                ap (λ v. v.webhooks_queue) (queue_for_event-Notifies e (sent e w)),
              )
      ]
]
