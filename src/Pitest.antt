-- ===== src/Pitest.antt =====
-- The mutation gate, scripts/quality/verify_pitest.py.
pub mod Disk
pub mod Steps
pub mod Install
pub mod NameStatus
pub mod Route
mod Examples
