-- ===== src/Query/Run/Connected.antt =====
-- A run ends, and what it leaves in the registry and in the collector (`_execute` in
-- src/promch/handlers/query.py).
use prometheus_ch_exporter.Prelude.{
  ℕ, ◌<◌, String, ◌≡◌, refl, subst, true, Option, none, some, List, ◌==◌, is_some, length, ◌⊎◌, inl,
  inr, Option-cases, Bool-cases,
}
use prometheus_ch_exporter.Prelude.Result.{Result}
use prometheus_ch_exporter.Dict.{get}
use prometheus_ch_exporter.Cells.{Objects}
use prometheus_ch_exporter.Collector.{Entries, CachedMetric}
use prometheus_ch_exporter.Cluster.Node.{Driver}
use prometheus_ch_exporter.Cluster.Topology.{ConnectionSpec, Topology, all_live}
use prometheus_ch_exporter.Cluster.Topology.Pool.{IsPool}
use prometheus_ch_exporter.Cluster.Connection.{Connection, execute_data_query, execute_system_query}
use prometheus_ch_exporter.Cluster.Snapshot.{member_hosts}
use prometheus_ch_exporter.Cluster.Connection.Failover.{execute_data_query-is_some}
use prometheus_ch_exporter.Query.Execute.{RunError, Reply, execute}
use prometheus_ch_exporter.Query.Execute.Outcomes.{Outcome, execute-Outcome}
use prometheus_ch_exporter.Query.Scheduler.{Task}
use prometheus_ch_exporter.Query.Run.{
  data_reply, ask, Ran, record_answer, record_missing, run_query,
}
use prometheus_ch_exporter.Registry.{Registry, get_connection, change, resource_key}
use prometheus_ch_exporter.Cluster.Connection.Queried.{
  Queried, data_query, system_query, Queried-IsPool,
}
use prometheus_ch_exporter.Registry.Concurrency.Invariant.{IsSound}
use prometheus_ch_exporter.Registry.Concurrency.Changes.{known_key, change-IsSound}

-- More fuel than live nodes, or than the bound on failovers.
abbrev pub IsEnough : ConnectionSpec → Topology → (fuel : ℕ) → Type 0
IsEnough spec t fuel =
    (length (all_live t) < fuel)
    ⊎ ((limit : ℕ) × (spec.max_failovers ≡ some limit) × (limit < fuel))

value_of {ℓ} : {A : Type ℓ} (o : Option A) → is_some o ≡ true → (a : A) × (o ≡ some a)
value_of none h = cc
value_of (some a) h = (a, refl)

module _ (d : Driver) (node_label : String) (task : Task) (random : ℕ → ℕ) (now fuel : ℕ)
    (c : Connection) (p : IsPool c.topology) where
  -- A query over a connection ends, and is a whole one.
  ask-Queried :
      IsEnough c.spec c.topology fuel
      → (t : Topology) × (answer : Result RunError Reply) × (ask d node_label task random now fuel c
          ≡ some (t, answer))
        × Queried d c t
  unfolding ask
  ask-Queried enough = elim (Bool-cases (task.query_type == "system")) [
    | inl system ↦
        let (t, answer) = execute_system_query d c.spec task.sql now node_label c.topology in
        (t, answer, rw system refl, system_query task.sql now node_label refl)
    | inr other ↦
        let (found, returns) =
          value_of (execute_data_query d c.spec random task.sql now fuel c.topology)
            (execute_data_query-is_some d c.spec random task.sql now fuel c.topology p enough) in
        (
          found.0,
          data_reply found.1,
          rw (other, returns) refl,
          data_query random task.sql now fuel found.1 returns,
        )
  ]

-- Enough fuel for the connection of a run, if there is one.
abbrev HasFuelFor : Registry → (fuel : ℕ) → Option ℕ → Type 0
HasFuelFor r fuel none = Unit
HasFuelFor r fuel (some id) = IsEnough (r.heap id).spec (r.heap id).topology fuel

abbrev pub HasFuel : Registry → (conn_ref : String) → (fuel : ℕ) → Type 0
HasFuel r conn_ref fuel = HasFuelFor r fuel (get_connection r conn_ref)

-- A run that ended: the registry stays as it should be, and the entry of the query ends in one of the
-- three ways of a run.
pub record Ended (py : Objects) (task : Task) (closing late : List ℕ) (e : CachedMetric) (ran : Ran)
    : Type 0 where
  pub sound : IsSound ran.0 closing late
  pub entry : CachedMetric
  pub stored : get ran.1 task.key ≡ some entry
  pub answer : Option (Result RunError Reply)
  pub outcome : Outcome py answer task.tick_ts e entry

module _ (d : Driver) (py : Objects) (expire_after : ℕ) (node_label : String) (task : Task)
    (random : ℕ → ℕ) (now fuel duration finished : ℕ) (r : Registry) (closing late : List ℕ)
    (es : Entries) (e : CachedMetric) where
  ended_with :
      (r' : Registry) (answer : Option (Result RunError Reply)) (members : Option (List String))
      → IsSound r' closing late
      → get es task.key ≡ some e
      → Ended py task closing late e (
        r',
        execute py expire_after es task.key task.conn_ref task.query_type answer members duration
            task.tick_ts finished,
      )
  ended_with r' answer members sound here =
      let (entry, stored, outcome) =
        execute-Outcome py expire_after es task.key e here task.conn_ref task.query_type answer
          members duration task.tick_ts finished in
      record { sound = sound; entry = entry; stored = stored; answer = answer; outcome = outcome }

  -- With more fuel than its connection has live nodes or may fail over, a run of a registered query
  -- ends, whatever the nodes answer. It leaves the registry as it should be, and the entry of the query
  -- with a counted failure, with stored rows, or unchanged if it is too late.
  pub run_query-Ended :
      IsSound r closing late
      → get es task.key ≡ some e
      → HasFuel r task.conn_ref fuel
      → (ran : Ran) × (run_query d py expire_after node_label task random now fuel duration finished
            r es
          ≡ some ran)
        × Ended py task closing late e ran
  unfolding run_query record_answer record_missing get_connection
  run_query-Ended i here enough = elim (Option-cases (get_connection r task.conn_ref)) [
    | inl nobody ↦ (
      record_missing py expire_after es task duration finished r,
      rw (nobody, run_query) refl,
      ended_with r none none i here,
    )
    | inr (id, found) ↦
        let p =
          i.pools id (known_key r closing late i (resource_key none task.conn_ref) id found) in
        let (t, answer, asked, q) =
          ask-Queried d node_label task random now fuel (r.heap id) p
            (subst (HasFuelFor r fuel) found enough) in
        (
          record_answer py expire_after es task duration finished r id (t, answer),
          rw (found, asked, run_query) refl,
          ended_with (change r id (record (r.heap id) { topology = t })) (some answer)
              (some (member_hosts t))
              (change-IsSound r closing late i (resource_key none task.conn_ref) id
                (record (r.heap id) { topology = t }) found (Queried-IsPool d (r.heap id) t p q))
              here,
        )
  ]
