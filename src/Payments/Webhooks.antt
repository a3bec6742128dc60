-- ===== src/Payments/Webhooks.antt =====
-- The webhooks that Monnify sends: src/payments/monnify-webhooks.service.ts.
pub mod Resolve
pub mod Handlers
pub mod Process
pub mod Idempotence
pub mod Authentic
pub mod Moves
pub mod Settlement
pub mod Expired
pub mod Rejection
