-- ===== src/Security.antt =====
-- The log of security events: src/security.
pub mod Chain
mod Tests
