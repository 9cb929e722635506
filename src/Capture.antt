-- ===== src/Capture.antt =====
-- apps/api/src/project-foundation/session-capture.service.ts: the capture of a session's audio as
-- the server records it.
pub mod Tables
pub mod Common
pub mod Service
pub mod Abandon
pub mod Resume
pub mod Errors
pub mod Replay
mod Newest
pub mod Generations
pub mod Extends
pub mod Ends
pub mod Answered
mod Again
pub mod Interrupts
pub mod Quiet
mod Tests
