-- ===== src/Nt.antt =====
-- The native commit for Windows, nt_*_experimental.py: payload sources, the plan from the journal and the
-- journal that is read again through handles.
pub mod Source
pub mod Bridge
pub mod Root
pub mod Identity
pub mod Sealed
pub mod Pinned
mod Examples
