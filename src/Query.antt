-- ===== src/Query.antt =====
-- src/promch/handlers/query.py and query_status.py: the ClickHouseQuery resources.
pub mod Naming
pub mod Rows
pub mod Condition
pub mod Status
pub mod Scheduler
pub mod Run
pub mod Lifecycle
pub mod Execute
pub mod Reflector
