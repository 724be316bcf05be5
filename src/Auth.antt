-- ===== src/Auth.antt =====
-- Signing in (auth/).
pub mod Sessions
mod Tests
