-- ===== src/Stale.antt =====
-- The sweeper of silent devices (platform/fmp/workers/tasks/telemetry.py). Times are in seconds.
pub mod Alarm
pub mod Devices
pub mod Laws
mod Tests
