-- ===== src/Events/Processor/Worker.antt =====
-- Proofs on the worker of src/events/events.processor.ts: a job ends with its event processed.
use subscription_billing_eng.Prelude.{
  true, String, some, ◌≡◌, ◌∙◌, inl, inr, refl, sym, ap, arith, str_eq, if◌then◌else◌, Bool-cases,
}
use mathlib.Core.Path.{subst}
use subscription_billing_eng.Prelude.Table.{find}
use subscription_billing_eng.Mail.Templates.{subscription_plan}
use subscription_billing_eng.Notifications.{queue_for_event}
use subscription_billing_eng.World.{World, EventStore, ok}
use subscription_billing_eng.Events.Processor.{event_by_id, handle_event, process_event}
use subscription_billing_eng.Events.Processor.Progress.{
  handled, sent, queued, mark_processed_event, handle_event_lem, process_event-events,
  find-process_row,
}
use subscription_billing_eng.Webhooks.Frame.{dispatch_for_event-writes}
use subscription_billing_eng.Notifications.Answering.{FormatsCurrencies, queue_for_event-ok}

-- The event is stored and processed.
abbrev pub IsProcessed : String → World → Type 0
IsProcessed id w = (e : EventStore) × (event_by_id id w ≡ some e) × (e.processed ≡ true)

-- An event that is processed stays so.
step-IsProcessed :
    (j id : String) (w : World) → IsProcessed id w → IsProcessed id (process_event j w).1
unfolding event_by_id
step-IsProcessed j id w (e, found, old) = elim (process_event-events j w) [
  | inl same ↦ (e, ap (find (λ x. str_eq x.id id)) same ∙ found, old)
  | inr (k, marked) ↦ (
    if str_eq k id then handled w.now e else e,
    ap (find (λ x. str_eq x.id id)) marked ∙ find-process_row k id w.now w.events found,
    ground arith,
  )
]

-- The deliveries of an event leave the currencies alone.
still_formats :
    (e : EventStore) (w : World) → FormatsCurrencies e w → FormatsCurrencies e (sent e w)
unfolding subscription_plan
still_formats e w formats =
    subst (λ v. FormatsCurrencies e v) (sym (dispatch_for_event-writes e w)) formats

module _ (id : String) (w : World) {e : EventStore} (formats : FormatsCurrencies e w)
    (found : event_by_id id w ≡ some e) where
  processed : ((process_event id w).0 ≡ ok tt) × IsProcessed id (process_event id w).1
  processed = elim (Bool-cases e.processed) [
    | inl old ↦
        let same : process_event id w ≡ (ok tt, w) = unfold process_event in ground arith in
        rw same (refl, (e, found, old))
    | inr new ↦
        let goes : process_event id w ≡ handle_event e w = unfold process_event in ground arith in
        let fine : (queue_for_event e (sent e w)).0 ≡ ok tt =
          queue_for_event-ok e (sent e w) (still_formats e w formats) in
        elim (handle_event_lem e w) [
          | inl (x, thrown, stops) ↦ cc
          | inr marked ↦
              rw (goes, marked)
                (refl, (handled (queued e w).now e, mark_processed_event id w found, refl))
        ]
  ]

-- A job for a stored event ends, without an exception, with the event stored and processed, where
-- `Intl.NumberFormat` formats the currencies that the templates read of it; and a later job, for
-- whatever event and however it ends, leaves it stored and processed.
pub process_event_processes :
    (id : String) (w : World) {e : EventStore}
    → FormatsCurrencies e w
    → event_by_id id w ≡ some e
    → ((process_event id w).0 ≡ ok tt)
      × IsProcessed id (process_event id w).1
      × ((j : String) → IsProcessed id (process_event j (process_event id w).1).1)
process_event_processes id w formats found =
    let (fine, done) = processed id w formats found in
    (fine, done, λ j. step-IsProcessed j id (process_event id w).1 done)
