-- ===== src/Tests/Runs.antt =====
-- Whole runs of queries over a connection that was discovered (src/promch/handlers/query.py).
use prometheus_ch_exporter.Prelude.{◌≡◌, refl, Option, none, some, [], ◌∷◌, arith, inl, contains}
use prometheus_ch_exporter.Dict.{get}
use prometheus_ch_exporter.Collector.{CachedMetric}
use prometheus_ch_exporter.Config.{defaults}
use prometheus_ch_exporter.Cluster.Topology.{all_live}
use prometheus_ch_exporter.Cluster.Snapshot.{status_snapshot}
use prometheus_ch_exporter.Cluster.Connection.FanOut.{test}
use prometheus_ch_exporter.Cluster.Connection.FanOut.Account.{counts_failed}
use prometheus_ch_exporter.Query.Scheduler.{QuerySpec, Task, pass, concurrency}
use prometheus_ch_exporter.Query.Run.{Ran, run_query}
use prometheus_ch_exporter.Query.Run.Connected.{Ended, run_query-Ended}
use prometheus_ch_exporter.Query.Run.Started.{readiness, task_of, Served, discovered-Served}
use prometheus_ch_exporter.Query.Run.Nodes.{system_run-failed_nodes}
use prometheus_ch_exporter.Registry.{get_connection, on_connection_present}
use prometheus_ch_exporter.Registry.Report.{status_to_dict}
use prometheus_ch_exporter.Tests.Metrics.{hits, two_queries}
use prometheus_ch_exporter.Tests.Secrets.{api_server, resource}
use prometheus_ch_exporter.Tests.Connections.{
  driver, py, empty, discovered, empty-IsSound, after_discovery-IsSound,
}

abbrev system_task : Task
system_task = record {
  key = "ns/hits";
  conn_ref = "main";
  query_type = "system";
  sql = "SELECT 1 AS value";
  timeout = 30;
  tick_ts = 9;
}

abbrev data_task : Task
data_task = record system_task { query_type = "data" }

run_query-Ended_example :
    (ran : Ran) × (run_query driver py 5 "node" data_task
        (λ n. 0)
        20
        2
        100
        21
        discovered
        two_queries
      ≡ some ran)
    × Ended py data_task [] [] hits ran
unfolding on_connection_present get_connection all_live get
run_query-Ended_example =
    run_query-Ended driver py 5 "node" data_task (λ n. 0) 20 2 100 21 discovered [] [] two_queries
      hits after_discovery-IsSound refl (inl (omega arith))

abbrev ran_of : Option Ran → Ran
ran_of none = (empty, [])
ran_of (some ran) = ran

abbrev system_ran : Ran
system_ran =
    ran_of (run_query driver py 5 "node" system_task (λ n. 0) 20 2 100 21 discovered two_queries)

abbrev entry_of : Option CachedMetric → CachedMetric
entry_of none = hits
entry_of (some e) = e

-- The entry of the query after the run.
abbrev stored : CachedMetric
stored = entry_of (get system_ran.1 "ns/hits")

system_run-failed_nodes_example :
    contains stored.failed_nodes "b"
    ≡ test
        (counts_failed driver "SELECT 1 AS value" 20
          (discovered.heap 0).spec
          "node"
          (discovered.heap 0).topology)
        (get (discovered.heap 0).topology.nodes "b")
unfolding on_connection_present get_connection run_query get
system_run-failed_nodes_example =
    system_run-failed_nodes driver py 5 "node" system_task (λ n. 0) 20 2 100 21 discovered [] []
      two_queries 0 hits stored system_ran "b" after_discovery-IsSound refl refl refl refl refl
      (omega arith) refl

-- `b` is down, and stored as failed.
stored_failed : stored.failed_nodes ≡ "b" ∷ []
unfolding on_connection_present get_connection run_query get
stored_failed = refl

abbrev query_spec : QuerySpec
query_spec = record {
  interval = none;
  timeout = none;
  max_concurrent = some 2;
  query_type = none;
  connection_ref = "main";
  query = "SELECT 1 AS value";
}

discovered-Served_example :
    Served driver py 5 "node"
      (λ n. 0)
      20
      2
      100
      21
      discovered
      []
      []
      hits
      (task_of "ns/hits" query_spec 30 9)
      (pass two_queries "ns/hits" query_spec defaults (readiness discovered "main") 1000 9 30)
unfolding on_connection_present get_connection all_live get concurrency status_to_dict
discovered-Served_example =
    discovered-Served driver py api_server "ops" "main" resource 0 1 2 empty [] [] 5 "node" (λ n. 0)
      20 2 100 21 two_queries "ns/hits" hits query_spec defaults 1000 9 30
      (status_to_dict (status_snapshot (discovered.heap 0).topology)) empty-IsSound refl refl refl
      refl (omega arith) (inl (omega arith))
