-- ===== src/AudioServer.antt =====
-- apps/api/src/audio: the server's end of a recording, its audio objects and their chunks. The
-- children hold the tables and files, the calls of the service, then the proofs.
pub mod Tables
pub mod Storage
pub mod Access
pub mod Service
pub mod Complete
pub mod Requests
pub mod Verified
pub mod Completed
pub mod Stored
pub mod Uploaded
pub mod Protocol
pub mod Preserved
pub mod Kept
pub mod Calls
pub mod Immutable
pub mod Runs
pub mod Repeated
pub mod Again
mod Tests
