-- ===== src/Windows.antt =====
-- Windows: which write filter an edition has, and the laboratory that stages it.
pub mod Detect
pub mod Uwf
mod Examples
