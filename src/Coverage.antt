-- ===== src/Coverage.antt =====
-- The coverage gate, scripts/quality/verify_coverage.py.
pub mod Outcome
pub mod Bytes
pub mod Slices
pub mod Paths
pub mod Statuses
pub mod Sections
pub mod Lines
pub mod Replay
pub mod Diff
pub mod Blanks
pub mod Floors
pub mod Counters
pub mod Predecessor
pub mod Sources
mod Examples
