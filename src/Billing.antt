-- ===== src/Billing.antt =====
-- src/billing: proration, and the billing cycle.
pub mod Proration
