-- ===== src/Core.antt =====
-- deepfreezer.py
pub mod Outcome
pub mod Types
pub mod RelPath
pub mod PayloadId
pub mod Overlay
pub mod Journal
pub mod Classify
pub mod Instance
pub mod Api
pub mod Listing
pub mod Invariant
pub mod Session
pub mod Lifecycle
pub mod Crash
pub mod Unjournaled
pub mod TornTail
pub mod Views
pub mod Commit
mod Examples
