-- ===== src/Alarms.antt =====
-- Threshold alarms of the ingestion pipeline (platform/fmp/ingestion/pipeline.py), and what a user does
-- to them (platform/fmp/api/v1/alarms.py).
pub mod Rules
pub mod Table
pub mod Frame
pub mod Open
pub mod Switch
pub mod Runs
pub mod Manual
mod Tests
