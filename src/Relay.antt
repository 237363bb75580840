-- ===== src/Relay.antt =====
-- Gateway commands on their way out: the queues and the relay loop of platform/fmp/ingestion/relay.py,
-- and the sweeper of platform/fmp/workers/tasks/commands.py; the topics of both sides; and the
-- request of a command in platform/fmp/api/v1/iot_gateways.py.
pub mod Queue
pub mod Rows
pub mod Flow
pub mod Sweep
pub mod Topics
pub mod Final
pub mod Issue
mod Tests
