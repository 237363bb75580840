-- ===== src/Dispensing/Engine.antt =====
-- platform/fmp/services/dispensing/dispense_engine.py: authorisation and settlement of codes.
-- A function takes the tables and the Redis store and returns both, with its response or exception.
-- An exception leaves the tables alone: the session is rolled back when the request ends.
pub mod Lookup
pub mod Validation
pub mod Settlement
pub mod Completion
pub mod Audit
