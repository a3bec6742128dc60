-- ===== src/Dunning.antt =====
-- src/dunning: the retries of a failed payment.
pub mod Schedule
pub mod Queue
