-- ===== src/Core/Views.antt =====
-- What a caller sees of the frozen view after an operation of deepfreezer.py.
pub mod Written
pub mod Removed
pub mod Made
pub mod Listed
