-- ===== src/Tests.antt =====
-- Sample states of the program, and the theorems at them.
pub mod Metrics
pub mod Queries
pub mod Statuses
pub mod Nodes
pub mod Settings
pub mod Peers
pub mod Secrets
pub mod Connections
pub mod Runs
