-- ===== src/Events/Frame.antt =====
-- Proofs on `emit` of src/events/events.service.ts: the tables and queues that are not its own.
use subscription_billing_eng.Prelude.{String, ◌≡◌, arith}
use subscription_billing_eng.World.{World}
use subscription_billing_eng.Events.{emit, DomainEventPayload}

module _ (t : String) (p : DomainEventPayload) (w : World) where
  pub emit-subscriptions : (emit t p w).subscriptions ≡ w.subscriptions
  unfolding emit
  emit-subscriptions = ground arith

  pub emit-invoices : (emit t p w).invoices ≡ w.invoices
  unfolding emit
  emit-invoices = ground arith

  pub emit-payments : (emit t p w).payments ≡ w.payments
  unfolding emit
  emit-payments = ground arith

  pub emit-plans : (emit t p w).plans ≡ w.plans
  unfolding emit
  emit-plans = ground arith

  pub emit-attempts : (emit t p w).attempts ≡ w.attempts
  unfolding emit
  emit-attempts = ground arith

  pub emit-dunning_queue : (emit t p w).dunning_queue ≡ w.dunning_queue
  unfolding emit
  emit-dunning_queue = ground arith

  pub emit-deliveries : (emit t p w).deliveries ≡ w.deliveries
  unfolding emit
  emit-deliveries = ground arith

  pub emit-webhooks_queue : (emit t p w).webhooks_queue ≡ w.webhooks_queue
  unfolding emit
  emit-webhooks_queue = ground arith

  pub emit-customers : (emit t p w).customers ≡ w.customers
  unfolding emit
  emit-customers = ground arith

  pub emit-now : (emit t p w).now ≡ w.now
  unfolding emit
  emit-now = ground arith

  pub emit-chaos_rules : (emit t p w).chaos_rules ≡ w.chaos_rules
  unfolding emit
  emit-chaos_rules = ground arith

  pub emit-config : (emit t p w).config ≡ w.config
  unfolding emit
  emit-config = ground arith

  pub emit-monnify_events : (emit t p w).monnify_events ≡ w.monnify_events
  unfolding emit
  emit-monnify_events = ground arith
