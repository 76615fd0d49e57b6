-- ===== src/Lib.antt =====
-- Verification library of the ClickHouse exporter, a Kubernetes operator (src/promch) that runs the
-- queries of ClickHouseQuery resources on ClickHouse clusters and serves their rows to Prometheus.
--
-- How the parts interact. A handler per connection resource (Registry.antt) reads the credentials from
-- a secret (Secrets.antt) and keeps one connection in a registry. A handler per query resource
-- (Query/Lifecycle.antt) registers its metric, and a scheduler per query (Query/Scheduler.antt) starts
-- runs on a timer. A run (Query/Run.antt, Query/Execute.antt) asks a connection
-- (Cluster/Connection.antt), which picks nodes of its pool (Cluster/Topology.antt), each with its own
-- health (Cluster/Node.antt). The rows are checked (Query/Rows.antt) and stored in the collector
-- (Collector.antt), which a scrape reads (Collector/Collect.antt), on the replica that leads
-- (Leadership.antt, Peering.antt). A reflector writes the state of the collector into the status of
-- the query (Query/Status.antt).
--
-- Which file models what; each definition has the name of its function.
-- - Collector.antt: src/promch/collector/metrics.py, `CachedMetric` and all operations of
--   `QueryMetricsCollector`, on a dictionary of entries. Collector/History.antt has sequences of calls
--   and what one query alone makes of them; its children prove what holds after any such sequence.
-- - Collector/Collect.antt: `collect` of the same file. A family is the arguments handed to
--   prometheus_client.
-- - Query/Naming.antt, Query/Rows.antt, Query/Condition.antt, Query/Status.antt:
--   src/promch/handlers/query_status.py.
-- - Query/Reflector.antt: the event of `status_reflector` of src/promch/handlers/query.py.
-- - Query/Scheduler.antt, Query/Execute.antt: `_run_scheduler`, `_execute` and `_fail` of
--   src/promch/handlers/query.py. Query/Scheduler/Concurrency.antt is a step relation: passes, runs,
--   ends of runs, changes and deletions, of any number of queries and in any order.
-- - Query/Lifecycle.antt: `register`, `deregister` and `startup` of the same file. Query/Run.antt: a
--   whole run of `_execute`, over the registry of connections and the collector.
-- - Cluster/Node.antt, Cluster/Topology.antt, Cluster/Connection.antt, Cluster/Snapshot.antt:
--   src/promch/clickhouse/node.py, topology.py and connection.py. Cluster/Client.antt: what
--   `default_client_factory` of types.py hands to the driver's library.
-- - Registry.antt: the handlers of src/promch/handlers/connection.py. A connection is an object of a
--   heap, and the registry holds its number. Registry/Spec.antt maps the resource and its credentials,
--   Registry/Report.antt the status; Registry/Concurrency.antt is a step relation of handlers, passes,
--   closes and the calls of queries on nodes.
-- - Secrets.antt: src/promch/k8s_secrets.py. Secrets/Base64.antt and Secrets/Utf8.antt are the two
--   decoders of Python's library that it uses, one character or byte at a time.
-- - Peering.antt: src/promch/peering.py. Peering/Sha1.antt is `hashlib.sha1`.
-- - Duration.antt, Config.antt, Leadership.antt: src/promch/utils.py, config.py, leadership.py.
-- - Prelude.antt, Dict.antt, Cells.antt: shared lists, texts and results; Python's dictionaries with
--   text keys; the values in a driver's rows.
-- - Tests.antt: sample states, and the theorems at them.
--
-- Conventions. Times are natural numbers of microseconds and arguments of what reads a clock; a text
-- of a time is the time. A float is its bits, and nothing computes with it. An exception is an `err`
-- with its message. An operation under locks is one step. The database driver is a parameter,
-- `Driver`, which answers each call by its host and its time; Python's float, str and repr of a
-- driver's objects are the parameter `Objects`. A random number is an argument. Parallel pings and
-- queries of one pass have one time, since each changes its own node only.
--
-- Fuel. Only the failover loop of a data query has fuel. More than the number of live nodes is enough,
-- and so is more than `max_failovers`: a node that failed is not picked again, and each failure counts.
--
-- A whole run of a query passes its fuel on to that loop.
--
-- Interleavings. The step relation of the registry takes an operation under the lock of a connection,
-- a pass or a close, as one step. A query holds no lock: there each of its operations on a node is a
-- step, at any time after the connection was built. Query/Run.antt is a run that nothing interrupts. A
-- close that ran out of its time in the cleanup is one that is still to come.
--
-- The driver. A query of it raises an OperationalError, another DatabaseError, a transport error, or
-- any other exception, which escapes. Making a client raises a DatabaseError or a transport error, and
-- a ping an OperationalError or a transport error: where the server answers a ping with an error,
-- clickhouse_connect answers False. Other exceptions of these two are left out. Of the errors of a system
-- query the model raises that of the first node in order, where asyncio raises the first in time, and
-- has the pool as it is when all nodes have answered.
--
-- Not modelled: the HTTP call to the API server (`_in_cluster_get`) and its failures, since the
-- parameter `Transport` always answers; the server of the metrics and the settings of the logs in
-- `startup`; `cancel_pending`, which asks for the end of runs that then end by themselves; the entry
-- point; other tasks that change the pool between two attempts of one data query;
-- and what kopf, asyncio, pydantic and prometheus_client do. Texts are ASCII where code looks at
-- characters, but for the values of secrets, which are code
-- points.
pub mod Prelude
pub mod Dict
pub mod Collector
pub mod Cells
pub mod Duration
pub mod Config
pub mod Leadership
pub mod Cluster
pub mod Query
pub mod Secrets
pub mod Registry
pub mod Peering
pub mod Tests
