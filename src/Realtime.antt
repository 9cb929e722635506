-- ===== src/Realtime.antt =====
-- apps/web/src/realtime-transcription/realtime-transport.ts: the client end of the transcription
-- socket. The children hold its messages, its frame buffer and its operations, then the proofs.
pub mod Messages
pub mod Buffer
pub mod Transport
pub mod Incoming
pub mod Lifecycle
pub mod Machine
pub mod Soundness
pub mod Invariant
pub mod Ordering
pub mod Redelivery
pub mod Stopping
pub mod Frames
mod Tests
