-- ===== src/Payments.antt =====
-- src/payments: the Monnify client, the payments of invoices, and the webhooks that Monnify sends.
pub mod Reference
pub mod Monnify
pub mod Service
pub mod Signature
pub mod Webhooks
pub mod Checkouts
pub mod Charges
