-- ===== src/Ledger.antt =====
-- nt_commit_checkpoint_experimental.py: the ledger of a commit. Files that are created once and
-- never changed say how far a plan came: INTENT, then STARTED and DONE for each operation, COMPLETE.
pub mod Files
pub mod Inspect
pub mod Intent
pub mod Execute
pub mod Shape
pub mod Reached
pub mod Safety
pub mod Liveness
pub mod Blocking
mod Examples
