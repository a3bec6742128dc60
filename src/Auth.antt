-- ===== src/Auth.antt =====
-- The accounts of merchants: src/auth. The libraries of passwords, digests and tokens are parameters.
pub mod Service
pub mod Sessions
pub mod Resets
pub mod Signup
