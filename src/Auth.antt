-- ===== src/Auth.antt =====
-- apps/api/src/auth: how often a login may be tried.
pub mod Throttle
pub mod Counted
pub mod Attempts
pub mod Guesses
mod Tests
