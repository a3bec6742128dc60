-- ===== src/Events.antt =====
-- The event store and its categories: src/events/events.service.ts and event-categories.ts. The
-- broadcast over the socket and the faults of the database and of Redis are not modelled, so `emit`
-- always succeeds.
pub mod DomainEvent
pub mod Frame
pub mod Processor
use Prim.Native.Char.{code}
use Prim.Native.String
use mathlib.Core.List.{reverse}
use subscription_billing_eng.Prelude.{
  ℕ, zero, suc, Bool, true, false, String, Option, none, some, List, [], ◌∷◌, ◌&&◌, ◌==◌, str_eq,
  or_else, truthy, leb, filter, if◌then◌else◌,
}
use subscription_billing_eng.Prelude.Table.{save, find}
use subscription_billing_eng.Entities.{EventData, AuditAction, AuditLog}
use subscription_billing_eng.World.{World, EventStore, next_id, draw}
use subscription_billing_eng.Chaos.{get_event_metadata}

-- EVENT_CATEGORY_MAP.
abbrev event_category_map : List (String × String)
event_category_map =
    (DomainEvent.subscription_created, "Subscription")
    ∷ (DomainEvent.subscription_updated, "Subscription")
    ∷ (DomainEvent.subscription_cancelled, "Subscription")
    ∷ (DomainEvent.subscription_renewed, "Subscription")
    ∷ (DomainEvent.payment_failed, "Payment")
    ∷ (DomainEvent.payment_recovered, "Payment")
    ∷ (DomainEvent.payment_started, "Payment")
    ∷ (DomainEvent.invoice_paid, "Invoice")
    ∷ (DomainEvent.invoice_generated, "Invoice")
    ∷ (DomainEvent.retry_scheduled, "Dunning")
    ∷ (DomainEvent.webhook_sent, "Webhook")
    ∷ (DomainEvent.chaos_scenario_started, "Analytics")
    ∷ []

category_in : List (String × String) → String → String
category_in [] event_type = "Analytics"
category_in ((k, c) ∷ rest) event_type =
    if str_eq k event_type then c else category_in rest event_type

unfoldable pub resolve_event_category : String → String
unfolding category_in
resolve_event_category event_type = category_in event_category_map event_type

-- `replace(/-/g, '')`.
strip_dashes : String → String
strip_dashes String.[] = ""
strip_dashes (String.◌∷◌ c s) =
    let rest = strip_dashes s in if code c == b'-' then rest else String.◌∷◌ c rest

-- `slice(0, n)`.
first_chars : ℕ → String → String
first_chars zero s = ""
first_chars (suc n) String.[] = ""
first_chars (suc n) (String.◌∷◌ c s) = String.◌∷◌ c (first_chars n s)

-- `flow_` and eight characters of a random UUID.
unfoldable pub correlation_id_of : String → String
unfolding strip_dashes first_chars
correlation_id_of uuid = String.◌++◌ "flow_" (first_chars 8 (strip_dashes uuid))

unfoldable pub generate_correlation_id : World → String × World
generate_correlation_id w = (correlation_id_of (next_id w), draw w)

-- DomainEventPayload.
pub record DomainEventPayload : Type 0 where
  pub merchant_id : String
  pub aggregate_type : String
  pub aggregate_id : String
  pub correlation_id : Option String
  pub body : EventData

-- `payload.correlationId ?? generateCorrelationId()`.
resolve_correlation : Option String → World → String × World
unfolding generate_correlation_id
resolve_correlation (some c) w = (c, w)
resolve_correlation none w = generate_correlation_id w

unfoldable pub new_event : String → DomainEventPayload → String → World → EventStore
new_event event_type p correlation w = record {
  id = next_id w;
  merchant_id = p.merchant_id;
  event_type = event_type;
  aggregate_type = p.aggregate_type;
  aggregate_id = p.aggregate_id;
  correlation_id = correlation;
  category = resolve_event_category event_type;
  payload = p.body;
  environment = or_else w.config.node_env "development";
  chaos = get_event_metadata p.merchant_id w;
  processed = false;
  processed_at = none;
  created_at = w.now;
}

-- `emit`: the event is stored, and a job for it is queued.
unfoldable pub emit : String → DomainEventPayload → World → World
unfolding resolve_correlation new_event
emit event_type p w =
    let (correlation, w') = resolve_correlation p.correlation_id w in
    let e = new_event event_type p correlation w' in
    draw (record w' { events = e ∷ w'.events; events_queue = e.id ∷ w'.events_queue })

-- The event of that identifier becomes processed.
unfoldable pub process_row : String → ℕ → List EventStore → List EventStore
process_row id now [] = []
process_row id now (e ∷ es) =
    (if str_eq e.id id then record e { processed = true; processed_at = some now } else e)
    ∷ process_row id now es

unfoldable pub mark_processed : String → World → World
unfolding process_row
mark_processed id w = record w { events = process_row id w.now w.events }

-- The bounds of a replay, already read as times; an empty text is no filter.
pub record ReplayFilters : Type 0 where
  pub subscription_id : Option String
  pub from : Option ℕ
  pub to : Option ℕ

in_range : Option ℕ → Option ℕ → ℕ → Bool
in_range (some from) (some to) t = leb from t && leb t to
in_range (some from) none t = leb from t
in_range none (some to) t = leb t to
in_range none none t = true

matches_aggregate : Option String → String → Bool
matches_aggregate sub id = if truthy sub then str_eq id (or_else sub "") else true

unfoldable pub replay_matches : String → ReplayFilters → EventStore → Bool
unfolding in_range matches_aggregate
replay_matches m f e =
    str_eq e.merchant_id m
    && matches_aggregate f.subscription_id e.aggregate_id
    && in_range f.from f.to e.created_at

-- `findForReplay`, the oldest event first: the table lists the newest first.
unfoldable pub find_for_replay : String → ReplayFilters → World → List EventStore
unfolding filter replay_matches
find_for_replay m f w = reverse (filter (replay_matches m f) w.events)

-- AuditService.log.
unfoldable pub log : AuditLog → World → World
log entry w = record w { audit_logs = entry ∷ w.audit_logs }
