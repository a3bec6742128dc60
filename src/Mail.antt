-- ===== src/Mail.antt =====
-- src/mail: the reader of payloads, the recipient, the templates, and the calls of the mailer.
pub mod Payload
pub mod Recipients
pub mod Templates
pub mod Service
