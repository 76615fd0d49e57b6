-- ===== src/Query/Run/Nodes.antt =====
-- The failed nodes that a whole run of a system query stores (`_execute` in
-- src/promch/handlers/query.py).
use prometheus_ch_exporter.Prelude.{
  ℕ, ◌≤◌, String, ◌≡◌, refl, sym, ◌∙◌, ap, true, Option, none, some, List, arith, eq_iff, contains,
}
use prometheus_ch_exporter.Prelude.Result.{Result, ok}
use prometheus_ch_exporter.Dict.{get}
use prometheus_ch_exporter.Cells.{Objects}
use prometheus_ch_exporter.Collector.{Entries, CachedMetric}
use prometheus_ch_exporter.Cluster.Node.{Driver}
use prometheus_ch_exporter.Cluster.Topology.{Topology}
use prometheus_ch_exporter.Cluster.Connection.{execute_system_query}
use prometheus_ch_exporter.Cluster.Snapshot.{member_hosts}
use prometheus_ch_exporter.Cluster.Connection.FanOut.{test}
use prometheus_ch_exporter.Cluster.Connection.FanOut.Account.{counts_failed, failed_nodes-exact}
use prometheus_ch_exporter.Query.Execute.{RunError, Reply}
use prometheus_ch_exporter.Query.Execute.Outcomes.{
  Outcome, failure, success, too_late, execute-Outcome,
}
use prometheus_ch_exporter.Query.Scheduler.{Task}
use prometheus_ch_exporter.Query.Run.{ask, Ran, record_answer, run_query}
use prometheus_ch_exporter.Registry.{Registry, get_connection, resource_key}
use prometheus_ch_exporter.Registry.Concurrency.Invariant.{IsSound}
use prometheus_ch_exporter.Registry.Concurrency.Changes.{known_key}

some-injective : {A : Type 0} {x y : A} → ◌≡◌ {A = Option A} (some x) (some y) → x ≡ y
some-injective h = cc

module _ (d : Driver) (py : Objects) (expire_after : ℕ) (node_label : String) (task : Task)
    (random : ℕ → ℕ) (now fuel duration finished : ℕ) (r : Registry) (closing late : List ℕ)
    (es : Entries) (id : ℕ) where
  abbrev pool : Topology
  pool = (r.heap id).topology

  system_answer : Topology × Result RunError Reply
  system_answer = execute_system_query d (r.heap id).spec task.sql now node_label pool

  run_of_system :
      task.query_type ≡ "system"
      → get_connection r task.conn_ref ≡ some id
      → run_query d py expire_after node_label task random now fuel duration finished r es
        ≡ some (record_answer py expire_after es task duration finished r id system_answer)
  unfolding run_query ask system_answer
  run_of_system system found =
      rw (found, run_query) (rw ((eq_iff task.query_type "system").1 system, ask) refl)

  -- What the entry has of a success tells its answer.
  success_nodes :
      (e e' : CachedMetric) (answer : Option (Result RunError Reply))
      → Outcome py answer task.tick_ts e e'
      → e.tick_ts ≤ task.tick_ts
      → e'.up ≡ true
      → (reply : Reply) × (answer ≡ some (ok reply)) × (e'.failed_nodes ≡ reply.failed_nodes)
  success_nodes e e' answer (failure f) fresh up = ground (arith, f.down, up)
  success_nodes e e' answer (success s) fresh up = (s.answer, s.answered, s.nodes)
  success_nodes e e' answer (too_late late same) fresh up = ground (arith, late, fresh)

  -- After a run of a system query that is not too late and leaves the query up, the failed nodes of its
  -- entry are exactly the live nodes of the connection that did not answer, and the nodes that were
  -- down already and are members, or that were down where no discovery has succeeded.
  pub system_run-failed_nodes :
      (e e' : CachedMetric) (ran : Ran) (k : String)
      → IsSound r closing late
      → task.query_type ≡ "system"
      → get_connection r task.conn_ref ≡ some id
      → run_query d py expire_after node_label task random now fuel duration finished r es
        ≡ some ran
      → get es task.key ≡ some e
      → get ran.1 task.key ≡ some e'
      → e.tick_ts ≤ task.tick_ts
      → e'.up ≡ true
      → contains e'.failed_nodes k
        ≡ test (counts_failed d task.sql now (r.heap id).spec node_label pool) (get pool.nodes k)
  unfolding record_answer get_connection system_answer
  system_run-failed_nodes e e' ran k i system found returns here after fresh up =
      let answer = system_answer.1 in
      let (entry, stored, outcome) =
        execute-Outcome py expire_after es task.key e here task.conn_ref task.query_type
          (some answer) (some (member_hosts system_answer.0)) duration task.tick_ts finished in
      let same_run = some-injective (sym (run_of_system system found) ∙ returns) in
      let same_entry : entry ≡ e' =
        some-injective (sym stored ∙ ap (λ (x : Ran). get x.1 task.key) same_run ∙ after) in
      let (reply, answered, nodes) =
        success_nodes e entry (some answer) outcome fresh
          (ap (λ (x : CachedMetric). x.up) same_entry ∙ up) in
      let p = i.pools id (known_key r closing late i (resource_key none task.conn_ref) id found) in
      ap (λ (x : CachedMetric). contains x.failed_nodes k) (sym same_entry)
      ∙ ap (λ hosts. contains hosts k) nodes
      ∙ (failed_nodes-exact d task.sql now (r.heap id).spec node_label pool system_answer.0 reply k
          p (ap (λ x. (system_answer.0, x)) (some-injective answered))).0
