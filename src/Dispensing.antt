-- ===== src/Dispensing.antt =====
-- The dispensing subsystem (platform/fmp/services/dispensing).
pub mod Models
pub mod Keys
pub mod Generator
pub mod Engine
pub mod Rows
pub mod Inversion
pub mod Soundness
pub mod Settled
pub mod Replay
pub mod Outcomes
pub mod Leftover
pub mod Admission
pub mod Discrepancy
pub mod Bench
pub mod Excel
mod Tests
