-- ===== src/Finalization.antt =====
-- How an interview ends on the server:
-- apps/api/src/project-foundation/session-finalization.service.ts. The children hold the tables, the
-- calls, then the proofs.
pub mod Tables
pub mod Access
pub mod Freeze
pub mod Advance
pub mod Frozen
pub mod Honest
pub mod Stops
pub mod Completed
pub mod Ends
pub mod Stopped
mod Tests
