-- ===== src/Portal.antt =====
-- The portal of a merchant's customers: src/portal.
pub mod Settings
pub mod Sessions
pub mod View
pub mod Actions
pub mod Updates
pub mod Ownership
pub mod Access
