-- ===== src/Lib.antt =====
-- The subscription billing engine: what it keeps in its database and its queues, and what its
-- services do to them.
--
-- The program is a NestJS application. A merchant registers plans and customers, a customer
-- subscribes to a plan, an hourly job bills the subscriptions whose period has ended, a payment that
-- fails starts a sequence of delayed retries (dunning), and the payment gateway, Monnify, reports the
-- payments made on its pages by webhooks. Each change is stored as an event, which is sent to the
-- endpoints that the merchant registered, and turned into e-mails and messages to the customer. The
-- customer can retry, pause or cancel by a message or a link, and manage the subscription on a portal;
-- the merchant reads figures that are computed from the tables.
--
-- Files, and the sources they model:
--   Prelude         texts, tests on numbers, lists; Prelude/Table is a table of the database, with
--                   what findOne and save do to it
--   Entities        Enums: src/shared/enums/index.ts; Rows: the entities, src/*/entities/*.entity.ts;
--                   Json: the values of a column of free form
--   World           State: the tables, the queues, the configuration, the clock and the outside
--                   world; Monad: a call of a service, which may throw; Repository: saves and inserts
--   Chaos           src/chaos/chaos.service.ts, the rules of failure injection, with Intercept for
--                   its interceptions; Rules and OneShot are the proofs
--   Events          src/events/events.service.ts (emit, markProcessed, findForReplay),
--                   event-categories.ts, correlation.util.ts, and src/audit/audit.service.ts (log);
--                   Processor: events.processor.ts, with Progress and Worker, its proofs
--   Customers, Plans, Invoices, ApiKeys   the services of the same names under src/; Validity and
--                   Revocation, under ApiKeys, are proofs
--   Payments        Reference: src/payments/monnify.util.ts; Monnify: monnify.service.ts; Service:
--                   payments.service.ts; Signature: monnify-signature.util.ts; Charges and Checkouts
--                   are the proofs
--   Payments/Webhooks   src/payments/monnify-webhooks.service.ts: Resolve (buildEventKey,
--                   resolvePayment), Handlers (the handlers of the three kinds of event), Process
--                   (verifySignature, process); Idempotence, Authentic, Settlement, Expired,
--                   Rejection and Moves are the proofs
--   Billing         Proration: src/billing/proration.service.ts; Bounds are the proofs
--   Subscriptions   StateMachine: src/subscriptions/subscription-state.machine.ts; Service:
--                   subscriptions.service.ts; Graph, Follows, Lifecycle, Creation and PlanChange are the
--                   proofs
--   Dunning         Schedule: scheduleRetry, suspendSubscription and onPaymentFailed of
--                   src/dunning/dunning.service.ts; Queue is the proofs
--   Renewal         Cycle: src/billing/billing.service.ts; Retry: processRetry of
--                   src/dunning/dunning.service.ts; Batch, Outcomes, PaidRetries, Moves,
--                   Billings and Reachability are the proofs
--   Webhooks        src/webhooks/webhooks.service.ts: dispatch and replay; Delivery: deliver and
--                   scheduleRetry; Dispatch, Attempts and Frame are the proofs
--   Recovery        Links: src/recovery-channels/recovery-link.service.ts; Channels:
--                   recovery-channels.service.ts, with Phones for handleAction; Email:
--                   email-recovery.controller.ts; SingleUse, Outcomes and Once are the proofs
--   Mail            src/mail: Payload (what a stored event carries), Recipients
--                   (email-recipient.resolver.ts), Templates (email-template.registry.ts), Service
--                   (mail.service.ts)
--   Notifications   src/notifications/notifications.service.ts and recovery-message.builder.ts;
--                   Queueing, Answering and Sending are the proofs
--   Portal          src/portal/portal.service.ts: Settings (resolvePortalConfig), Sessions
--                   (requestLogin, requireSession), View (getSessionState), Actions (executeAction);
--                   Updates, Ownership and Access are the proofs
--   Analytics       src/analytics/analytics.service.ts: Util (analytics.util.ts), Groups and Rows
--                   (grouped queries and the loops over their rows), Counts, Payments, Deliveries,
--                   Subscribers, Recovered, Plans, TopCustomers, Metrics, Calendar (the dates of
--                   analytics.util.ts), Trends; Partition, Ranking and Buckets are the proofs
--   ChaosScenarioRunner   src/chaos/chaos-scenario.runner.ts, with Scenarios for the rules and the
--                   messages of its scenarios; Runs is the proofs
--   Auth            Service: src/auth/auth.service.ts and strategies/jwt.strategy.ts, with Users for
--                   its rows; Sessions, Resets and Signup are the proofs
--   Merchants       src/merchants/merchants.service.ts
--   Tests           each result applied to concrete rows
--
-- How the code corresponds. A service method is a function of the state that answers a result and
-- the state after it; what it wrote before it throws stays written, since the services open no
-- transaction. A table is a list of rows, the newest first, and findOne without an order takes the
-- newest row that matches. A save replaces the row of the same identifier, or inserts it; a property
-- that the code sets to undefined is not written. An insert takes the next identifier of the
-- database's generator.
--
-- The outside world enters as functions of a counter of draws, and a theorem holds for all of them:
-- the identifiers, the random tokens, the answers of Monnify, of Twilio and of a merchant's endpoint,
-- the verdict of the mailer, the printing of an amount with its currency by `Intl`, which throws at a
-- currency that it does not know, the test `Math.random() > 0.15` of a simulated charge, the
-- relations that a stored payload carries, which of some rows was updated last, which texts the
-- database takes for a `uuid`, and which identifier of a plan TypeORM writes where an entity has both
-- the loaded plan and an assigned identifier. The hashes of the
-- `crypto` library, `bcrypt` and the library of tokens are parameters of the definitions that use
-- them.
--
-- Simplifications. An amount is a natural number of hundredths, and proration computes the quotients
-- exactly where the source computes in floating point, and rounds where the source rounds; so do the
-- figures. A grouped query answers the groups of its rows, in an order that nothing here depends on
-- but the order of equals. A time is
-- a number of milliseconds, and one call reads the clock as one instant. Upper and lower case and
-- the spaces of a pattern are those of ASCII, and the no-break space. The database, the queues and
-- Redis do not fail, but for the search of a webhook's payment by a text that is no `uuid`, which
-- throws; the identifiers of requests and of stored rows are taken to be well formed. The loops are over
-- lists; on fuel run only the printing of a number in decimal, whose fuel is the number and one more,
-- and so is at least the number of its digits, the search for the month of a day, whose fuel is more
-- than the days before it, and the loop of the date buckets, whose fuel is more than the days of the
-- range. A date is counted in days and a month in months from January 1970, in UTC.
--
-- Not modelled: the listings with their pages, the HTTP exchange with Monnify and its access token,
-- the list of banks, the wording of replies that print a date, the text of e-mails, invoice numbers,
-- the broadcast to browsers, and the wiring of the framework:
-- they are output, queries, calls of libraries, or sequences of calls of the services above.
pub mod Prelude
pub mod Entities
pub mod World
pub mod Chaos
pub mod Events
pub mod Customers
pub mod Plans
pub mod Invoices
pub mod Payments
pub mod Billing
pub mod Subscriptions
pub mod Dunning
pub mod ApiKeys
pub mod Renewal
pub mod Webhooks
pub mod Recovery
pub mod Mail
pub mod Notifications
pub mod Portal
pub mod Analytics
pub mod ChaosScenarioRunner
pub mod Auth
pub mod Merchants
pub mod Tests
