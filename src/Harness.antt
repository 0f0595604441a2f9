-- ===== src/Harness.antt =====
-- The synchronization harness, spikes/powersync/harness/src.
pub mod Protocol
pub mod Format
pub mod Lowering
pub mod Envelope
pub mod Upload
pub mod Queue
pub mod Reply
pub mod LocalState
pub mod Database
pub mod Server
pub mod Rows
pub mod Execution
pub mod History
pub mod Uploading
pub mod Exchange
pub mod Reset
pub mod Limits
pub mod RateWindow
mod Tests
