-- ===== src/Query/Run.antt =====
-- A whole run of `_execute` in src/promch/handlers/query.py: it looks its connection up in the
-- registry, queries it, and leaves its result in the collector.
pub mod Connected
pub mod Started
pub mod Nodes
use prometheus_ch_exporter.Prelude.{
  ℕ, String, ◌≡◌, Bool, true, false, Option, none, some, List, [], ◌==◌, if◌then◌else◌,
}
use prometheus_ch_exporter.Prelude.Result.{Result, ok, err}
use prometheus_ch_exporter.Cells.{Row, Objects}
use prometheus_ch_exporter.Collector.{Entries}
use prometheus_ch_exporter.Cluster.Node.{Driver}
use prometheus_ch_exporter.Cluster.Topology.{Topology}
use prometheus_ch_exporter.Cluster.Connection.{
  Connection, DataResult, execute_data_query, execute_system_query,
}
use prometheus_ch_exporter.Cluster.Snapshot.{member_hosts}
use prometheus_ch_exporter.Query.Execute.{RunError, Reply, execute}
use prometheus_ch_exporter.Query.Scheduler.{Task}
use prometheus_ch_exporter.Registry.{Registry, get_connection, change}

-- `raw` of a data query, with no failed nodes.
abbrev pub data_reply : Result RunError (List Row) → Result RunError Reply
data_reply (err e) = err e
data_reply (ok rows) = ok (record { rows = rows; failed_nodes = [] })

-- What a query over a connection leaves: its pool, and what it answered.
abbrev pub Answered : Type 0
Answered = Topology × Result RunError Reply

abbrev pub data_answered : Option DataResult → Option Answered
data_answered none = none
data_answered (some (t, answer)) = some (t, data_reply answer)

module _ (d : Driver) (node_label : String) (task : Task) (random : ℕ → ℕ) (now fuel : ℕ) where
  -- none is out of fuel.
  unfoldable pub ask : Connection → Option Answered
  unfolding execute_system_query execute_data_query
  ask c =
      if task.query_type == "system"
      then some (execute_system_query d c.spec task.sql now node_label c.topology)
      else data_answered (execute_data_query d c.spec random task.sql now fuel c.topology)

-- The registry and the collector after a run.
abbrev pub Ran : Type 0
Ran = Registry × Entries

module _ (py : Objects) (expire_after : ℕ) (es : Entries) (task : Task)
    (duration finished : ℕ) where
  -- The rest of the run, over the connection with this number.
  unfoldable pub record_answer : Registry → ℕ → Answered → Ran
  unfolding change execute member_hosts
  record_answer r id (t, answer) = (
    change r id (record (r.heap id) { topology = t }),
    execute py expire_after es task.key task.conn_ref task.query_type (some answer)
        (some (member_hosts t)) duration task.tick_ts finished,
  )

  unfoldable pub record_missing : Registry → Ran
  unfolding execute
  record_missing r = (
    r,
    execute py expire_after es task.key task.conn_ref task.query_type none none duration
        task.tick_ts finished,
  )

-- `_execute`; none is out of fuel.
unfoldable pub run_query :
    (d : Driver) (py : Objects) (expire_after : ℕ) (node_label : String) (task : Task)
    (random : ℕ → ℕ) (now fuel duration finished : ℕ)
    → Registry
    → Entries
    → Option Ran
unfolding get_connection ask record_answer record_missing
run_query d py expire_after node_label task random now fuel duration finished r es =
    elim (get_connection r task.conn_ref) [
      | none ↦ some (record_missing py expire_after es task duration finished r)
      | some id ↦ elim (ask d node_label task random now fuel (r.heap id)) [
        | none ↦ none
        | some answered ↦
            some (record_answer py expire_after es task duration finished r id answered)
      ]
    ]
