-- ===== src/Tests.antt =====
-- Each theorem of the results applied once, to concrete rows and states.
pub mod Fixtures
pub mod Subscribing
pub mod Billing
pub mod Paying
pub mod Messaging
pub mod Serving
pub mod Accounts
pub mod Running
