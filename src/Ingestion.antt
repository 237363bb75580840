-- ===== src/Ingestion.antt =====
-- The ingestion service: what platform/fmp/ingestion/main.py does between the broker and the pipeline,
-- with the tank cache of platform/fmp/ingestion/cache.py and the counters of metrics_counters.py.
pub mod DeadLetters
pub mod Acks
pub mod Settling
pub mod Heartbeats
pub mod Routing
pub mod Intake
pub mod Resolve
mod Tests
