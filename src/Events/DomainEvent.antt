-- ===== src/Events/DomainEvent.antt =====
-- DOMAIN_EVENTS of src/events/domain-events.ts.
use subscription_billing_eng.Prelude.{String}

abbrev pub subscription_created : String
subscription_created = "SubscriptionCreatedEvent"

abbrev pub subscription_updated : String
subscription_updated = "SubscriptionUpdatedEvent"

abbrev pub subscription_cancelled : String
subscription_cancelled = "SubscriptionCancelledEvent"

abbrev pub subscription_renewed : String
subscription_renewed = "SubscriptionRenewedEvent"

abbrev pub payment_failed : String
payment_failed = "PaymentFailedEvent"

abbrev pub payment_recovered : String
payment_recovered = "PaymentRecoveredEvent"

abbrev pub payment_started : String
payment_started = "PaymentStartedEvent"

abbrev pub invoice_paid : String
invoice_paid = "InvoicePaidEvent"

abbrev pub invoice_generated : String
invoice_generated = "InvoiceGeneratedEvent"

abbrev pub retry_scheduled : String
retry_scheduled = "RetryScheduledEvent"

abbrev pub webhook_sent : String
webhook_sent = "WebhookSentEvent"

abbrev pub chaos_scenario_started : String
chaos_scenario_started = "ChaosScenarioStartedEvent"
