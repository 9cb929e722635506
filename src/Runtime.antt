-- ===== src/Runtime.antt =====
-- apps/api/src/realtime-transcription/realtime-runtime.service.ts and the frame handling of
-- realtime.gateway.ts: the server end of the transcription socket. The children hold the runtime of a
-- session, the service over all sessions, the gateway's frames, then the proofs.
pub mod Session
pub mod Service
pub mod Calls
pub mod Rule
pub mod Window
pub mod Windows
pub mod Replay
pub mod Rejoin
pub mod Holds
pub mod Lease
pub mod Gateway
pub mod Accepted
pub mod Streams
pub mod Stale
mod Tests
