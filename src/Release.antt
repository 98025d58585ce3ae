-- ===== src/Release.antt =====
-- packaging: what a release is called, and the gate that 0.2.0 has to pass.
pub mod Gate
mod Examples
