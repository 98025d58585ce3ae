-- ===== src/Admin.antt =====
-- admin_ipc.py: the broker of administration commands.
pub mod Wire
pub mod Broker
pub mod Decode
pub mod Process
pub mod Nonces
pub mod Confirmed
pub mod Bound
pub mod Prepared
mod Examples
