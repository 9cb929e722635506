-- ===== src/Audio.antt =====
-- apps/web/src/audio: the recording kept in the browser until the server has it.
pub mod Types
pub mod Store
pub mod Queue
pub mod Job
pub mod JobStore
pub mod Client
pub mod Upload
pub mod Pump
mod StoreRun
mod Archive
mod Delivery
mod Completion
mod Deliveries
mod RequestIds
mod Reports
mod Tests
