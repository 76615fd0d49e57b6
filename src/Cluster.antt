-- ===== src/Cluster.antt =====
-- src/promch/clickhouse: the client of one ClickHouse cluster.
pub mod Node
pub mod Topology
pub mod Snapshot
pub mod Connection
pub mod Client
