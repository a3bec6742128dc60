-- ===== src/Events/Processor.antt =====
-- src/events/events.processor.ts: what is done for each stored event. `recordEvent` of the analytics
-- does nothing.
pub mod Progress
pub mod Worker
use subscription_billing_eng.Prelude.{
  String, Option, none, some, List, [], ◌∷◌, str_eq, if◌then◌else◌,
}
use subscription_billing_eng.Prelude.Table.{find}
use subscription_billing_eng.Entities.{AuditAction, AuditLog}
use subscription_billing_eng.World.{World, Action, EventStore, ok, modify, ◌>>=◌, ◌>>◌}
use subscription_billing_eng.Events.{log, mark_processed}
use subscription_billing_eng.Webhooks.{dispatch_for_event}
use subscription_billing_eng.Notifications.{queue_for_event}

unfoldable pub event_by_id : String → World → Option EventStore
unfolding find
event_by_id id w = find (λ e. str_eq e.id id) w.events

abbrev pub event_log : EventStore → AuditLog
event_log e = record {
  merchant_id = e.merchant_id;
  actor = "system";
  action = AuditAction.webhook;
  resource_type = "event";
  resource_id = some e.id;
}

-- The steps of an event that was not processed.
unfoldable pub handle_event : EventStore → Action (Unit {0})
handle_event e = do
  modify (dispatch_for_event e)
  queue_for_event e
  modify (log (event_log e))
  modify (mark_processed e.id)

-- `process`.
unfoldable pub process_event : String → Action (Unit {0})
unfolding event_by_id handle_event
process_event id w = elim (event_by_id id w) [
  | none ↦ (ok tt, w)
  | some e ↦ if e.processed then (ok tt, w) else handle_event e w
]
