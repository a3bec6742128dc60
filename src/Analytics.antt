-- ===== src/Analytics.antt =====
-- The figures of a merchant: src/analytics.
pub mod Util
pub mod Groups
pub mod Rows
pub mod Counts
pub mod Payments
pub mod Partition
pub mod Deliveries
pub mod Subscribers
pub mod Recovered
pub mod Plans
pub mod TopCustomers
pub mod Metrics
pub mod Ranking
pub mod Calendar
pub mod Buckets
pub mod Trends
