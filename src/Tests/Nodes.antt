-- ===== src/Tests/Nodes.antt =====
-- A cluster of two seeds (src/promch/clickhouse): `a` drops every query, `b` answers one row, and
-- `c` is a member that only discovery knows.
use mathlib.Core.Option
use prometheus_ch_exporter.Prelude.{
  ℕ, String, ◌≡◌, refl, true, Option, none, some, [], ◌∷◌, arith, ◌==◌, if◌then◌else◌, contains,
  inr, is_some,
}
use prometheus_ch_exporter.Prelude.Result.{Result, ok, err}
use prometheus_ch_exporter.Dict.{get, put}
use prometheus_ch_exporter.Cells.{object}
use prometheus_ch_exporter.Cluster.Node.{Driver, DriverError, transport, ResultSet}
use prometheus_ch_exporter.Cluster.Topology.{
  ConnectionSpec, Topology, new_topology, health_tick, apply_members,
}
use prometheus_ch_exporter.Cluster.Topology.Pool.{
  IsPool, face, expected_face, new_topology-IsPool, health_tick-IsPool, health_tick-alive,
}
use prometheus_ch_exporter.Cluster.Topology.Membership.{apply_members-discovers}
use prometheus_ch_exporter.Cluster.Connection.{execute_data_query, DataResult}
use prometheus_ch_exporter.Cluster.Connection.Failover.{execute_data_query-is_some}
use prometheus_ch_exporter.Cluster.Connection.Answers.{execute_data_query-outcome}
use prometheus_ch_exporter.Cluster.Connection.Outcome.{DataOutcome}
use prometheus_ch_exporter.Cells.{Objects}
use prometheus_ch_exporter.Cluster.Connection.{new_connection, recheck, rediscover, refresh}
use prometheus_ch_exporter.Cluster.Connection.{execute_system_query}
use prometheus_ch_exporter.Cluster.Connection.FanOut.{test}
use prometheus_ch_exporter.Cluster.Connection.FanOut.Account.{
  asked, counts_failed, failed_nodes-exact,
}
use prometheus_ch_exporter.Query.Execute.{RunError, Reply}
use prometheus_ch_exporter.Cluster.Connection.Passes.{IsPass, passes-IsPass}

abbrev one_row : ResultSet
one_row = record { column_names = "value" ∷ []; result_rows = (object 3 ∷ []) ∷ [] }

abbrev answer_of : String → Result DriverError ResultSet
answer_of host = if host == "a" then err (transport "reset by peer") else ok one_row

abbrev driver : Driver
driver = record {
  connect = λ host now. ok tt;
  run = λ host sql now. answer_of host;
  ping = λ host now. ok true;
}

abbrev spec : ConnectionSpec
spec = record {
  seed_hosts = "a" ∷ "b" ∷ "a" ∷ [];
  cluster_name = "main";
  max_failovers = some 1;
  port = 8443;
  username = [];
  password = [];
  secure = true;
  verify = true;
  connect_timeout = 10000000;
  system_query_retries = 1;
  liveness_mode = "active";
  recheck_interval = 60000000;
  topology_interval = 1800000000;
  idle_ttl = 600;
}

abbrev pool : Topology
pool = health_tick driver spec (new_topology spec 0) 1 2

pool-IsPool : IsPool pool
pool-IsPool =
    health_tick-IsPool driver spec (new_topology spec 0) 1 2 (new_topology-IsPool spec 0).0

health_tick-alive_example :
    Option.map face (get pool.nodes "a")
    ≡ Option.map (expected_face driver spec 1) (get (new_topology spec 0).nodes "a")
health_tick-alive_example = health_tick-alive driver spec (new_topology spec 0) 1 2 "a"

-- The random choice takes the first candidate.
abbrev first : ℕ → ℕ
first n = 0

execute_data_query-is_some_example :
    is_some (execute_data_query driver spec first "SELECT 1" 5 2 pool) ≡ true
execute_data_query-is_some_example =
    execute_data_query-is_some driver spec first "SELECT 1" 5 2 pool pool-IsPool
      (inr (1, refl, omega arith))

abbrev outcome : Option DataResult → DataResult
outcome none = (pool, ok [])
outcome (some r) = r

abbrev failed_over : DataResult
failed_over = outcome (execute_data_query driver spec first "SELECT 1" 5 2 pool)

execute_data_query-outcome_example :
    IsPool failed_over.0 × DataOutcome driver spec "SELECT 1" 5 pool failed_over.0 failed_over.1
unfolding execute_data_query get health_tick new_topology put
execute_data_query-outcome_example =
    execute_data_query-outcome driver spec first "SELECT 1" 5 2 pool failed_over.0 failed_over.1
      pool-IsPool refl

-- Python's objects, of which nothing is asked here.
abbrev no_objects : Objects
no_objects = record { to_float = λ c. none; str_object = λ n. ""; repr_object = λ n. "" }

passes-IsPass_example :
    IsPass (new_connection spec 0) (recheck driver (new_connection spec 0) 1 2)
    × IsPass (new_connection spec 0) (rediscover driver no_objects (new_connection spec 0) 0 1 2)
    × IsPass (new_connection spec 0) (refresh driver no_objects (new_connection spec 0) 0 1 2)
unfolding new_connection
passes-IsPass_example =
    passes-IsPass driver no_objects (new_connection spec 0) 0 1 2 (new_topology-IsPool spec 0).0

-- The pool after a discovery that has named `b` and `c`.
abbrev partial : Topology
partial = apply_members driver pool ("b" ∷ "c" ∷ []) 9

partial-IsPool : IsPool partial
partial-IsPool = (apply_members-discovers driver pool ("b" ∷ "c" ∷ []) 9 "c" pool-IsPool).0

abbrev answered : Result RunError Reply → Reply
answered (ok reply) = reply
answered (err e) = record { rows = []; failed_nodes = [] }

abbrev fanned_out : Topology × Result RunError Reply
fanned_out = execute_system_query driver spec "SELECT 1" 12 "node" partial

failed_nodes-exact_example :
    (contains (answered fanned_out.1).failed_nodes "a"
      ≡ test (counts_failed driver "SELECT 1" 12 spec "node" partial) (get partial.nodes "a"))
    × (get fanned_out.0.nodes "a" ≡ Option.map (asked driver "SELECT 1" 12) (get partial.nodes "a"))
unfolding execute_system_query get apply_members health_tick new_topology put
failed_nodes-exact_example =
    failed_nodes-exact driver "SELECT 1" 12 spec "node" partial fanned_out.0 (answered fanned_out.1)
      "a" partial-IsPool refl
