-- ===== src/Recovery.antt =====
-- src/recovery-channels: links that act once, and actions by message.
pub mod Links
pub mod Channels
pub mod Phones
pub mod Email
