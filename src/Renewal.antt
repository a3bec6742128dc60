-- ===== src/Renewal.antt =====
-- The renewal of subscriptions: src/billing/billing.service.ts with src/dunning/dunning.service.ts,
-- which call one another.
pub mod Cycle
pub mod Batch
pub mod Moves
pub mod Billings
pub mod Reachability
pub mod Retry
pub mod Outcomes
pub mod PaidRetries
