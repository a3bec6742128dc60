-- ===== src/World/Repository.antt =====
-- The repositories: inserts draw an identifier, a save replaces the row of the same identifier.
use subscription_billing_eng.Prelude.{◌+◌, String, ◌∷◌}
use subscription_billing_eng.Prelude.Table.{save}
use subscription_billing_eng.Entities.{
  Plan, Customer, Subscription, Invoice, Payment, PaymentAttempt,
}
use subscription_billing_eng.World.State.{World, WebhookDelivery, DunningJob, WebhookJob}

-- The next generated identifier, and the state after it.
abbrev pub next_id : World → String
next_id w = w.uuid w.draws

abbrev pub draw : World → World
draw w = record w { draws = w.draws + 1 }

unfoldable pub save_subscription : Subscription → World → World
unfolding save
save_subscription s w = record w { subscriptions = save (λ x. x.id) s w.subscriptions }

unfoldable pub save_invoice : Invoice → World → World
unfolding save
save_invoice i w = record w { invoices = save (λ x. x.id) i w.invoices }

unfoldable pub save_payment : Payment → World → World
unfolding save
save_payment p w = record w { payments = save (λ x. x.id) p w.payments }

unfoldable pub save_customer : Customer → World → World
unfolding save
save_customer c w = record w { customers = save (λ x. x.id) c w.customers }

unfoldable pub save_plan : Plan → World → World
unfolding save
save_plan p w = record w { plans = save (λ x. x.id) p w.plans }

unfoldable pub save_delivery : WebhookDelivery → World → World
unfolding save
save_delivery d w = record w { deliveries = save (λ x. x.id) d w.deliveries }

unfoldable pub insert_subscription : Subscription → World → World
insert_subscription s w = draw (record w { subscriptions = s ∷ w.subscriptions })

unfoldable pub insert_invoice : Invoice → World → World
insert_invoice i w = draw (record w { invoices = i ∷ w.invoices })

unfoldable pub insert_payment : Payment → World → World
insert_payment p w = draw (record w { payments = p ∷ w.payments })

unfoldable pub insert_attempt : PaymentAttempt → World → World
insert_attempt a w = draw (record w { attempts = a ∷ w.attempts })

unfoldable pub enqueue_dunning : DunningJob → World → World
enqueue_dunning j w = record w { dunning_queue = j ∷ w.dunning_queue }

unfoldable pub enqueue_webhook : WebhookJob → World → World
enqueue_webhook j w = record w { webhooks_queue = j ∷ w.webhooks_queue }
