-- ===== src/Query/Run/Started.antt =====
-- From a connection that was discovered to a run that ends (src/promch/handlers/connection.py and
-- query.py).
use prometheus_ch_exporter.Prelude.{
  ℕ, ◌<◌, ◌+◌, String, ◌≡◌, refl, ◌∙◌, ap, subst, Bool, true, Option, none, some, List, [], arith,
  eq_refl,
}
use prometheus_ch_exporter.Prelude.Result.{ok}
use prometheus_ch_exporter.Dict.{Dict, get}
use prometheus_ch_exporter.Dict.Laws.{get-put}
use prometheus_ch_exporter.Cells.{Objects}
use prometheus_ch_exporter.Collector.{Entries, CachedMetric, inflight, invalid_reason, inc_inflight}
use prometheus_ch_exporter.Config.{OperatorConfig}
use prometheus_ch_exporter.Cluster.Node.{Driver}
use prometheus_ch_exporter.Query.Scheduler.{QuerySpec, Task, pass, concurrency, query_kind}
use prometheus_ch_exporter.Query.Run.{Ran, run_query}
use prometheus_ch_exporter.Query.Run.Connected.{HasFuel, Ended, run_query-Ended}
use prometheus_ch_exporter.Secrets.Reader.{Transport}
use prometheus_ch_exporter.Registry.{
  Registry, get_connection, resource_key, on_connection_present, Handled,
}
use prometheus_ch_exporter.Registry.Spec.{ResourceSpec}
use prometheus_ch_exporter.Registry.Report.{StatusValue}
use prometheus_ch_exporter.Registry.Outcomes.{IsReported, IsTrue, handlers-IsTrue}
use prometheus_ch_exporter.Registry.Concurrency.{World}
use prometheus_ch_exporter.Registry.Concurrency.Invariant.{IsSound}
use prometheus_ch_exporter.Registry.Concurrency.Reached.{Reach-IsWorld}
use prometheus_ch_exporter.Registry.Concurrency.Handlers.{handlers-run}

-- `get_connection(conn_ref)`, as far as a pass of the scheduler looks at it.
unfoldable pub readiness : Registry → (conn_ref : String) → Option Bool
unfolding get_connection
readiness r conn_ref = elim (get_connection r conn_ref) [
  | none ↦ none
  | some id ↦ some (r.heap id).is_ready
]

readiness_reported :
    (r : Registry) (name : String) (status : Dict StatusValue)
    → IsReported r (resource_key none name) status
    → readiness r name ≡ some true
unfolding readiness get_connection
readiness_reported r name status reported =
    rw (reported.registered, readiness) (ap some reported.ready)

-- The execution that a pass starts.
abbrev pub task_of : (key : String) (spec : QuerySpec) (timeout loop_time : ℕ) → Task
task_of key spec timeout loop_time = record {
  key = key;
  conn_ref = spec.connection_ref;
  query_type = query_kind spec;
  sql = spec.query;
  timeout = timeout;
  tick_ts = loop_time;
}

pass_starts :
    (es : Entries) (key : String) (spec : QuerySpec) (config : OperatorConfig)
    (wall_time loop_time timeout : ℕ)
    → invalid_reason es key ≡ none
    → inflight es key < concurrency spec config
    → pass es key spec config (some true) wall_time loop_time timeout
      ≡ (inc_inflight es key, some (task_of key spec timeout loop_time))
unfolding pass
pass_starts es key spec config wall_time loop_time timeout valid free = ground arith

invalid_of :
    (es : Entries) (key : String) (e : CachedMetric)
    → get es key ≡ some e
    → invalid_reason es key ≡ e.invalid_reason
unfolding invalid_reason
invalid_of es key e here = ground (arith, here)

inflight_of :
    (es : Entries) (key : String) (e : CachedMetric)
    → get es key ≡ some e
    → inflight es key ≡ e.inflight
unfolding inflight
inflight_of es key e here = ground (arith, here)

get-inc_inflight :
    (es : Entries) (key : String) (e : CachedMetric)
    → get es key ≡ some e
    → get (inc_inflight es key) key ≡ some (record e { inflight = e.inflight + 1 })
unfolding inc_inflight
get-inc_inflight es key e here = grind (arith, eq_refl key, get-put)

-- A run that a pass starts, and that ends.
pub record Served (d : Driver) (py : Objects) (expire_after : ℕ) (node_label : String)
    (random : ℕ → ℕ) (now fuel duration finished : ℕ) (r : Registry) (closing late : List ℕ)
    (e : CachedMetric) (task : Task) (after_pass : Entries × Option Task) : Type 0 where
  pub started : after_pass.1 ≡ some task
  pub ran : Ran
  pub ends :
      run_query d py expire_after node_label task random now fuel duration finished r after_pass.0
      ≡ some ran
  pub ended : Ended py task closing late (record e { inflight = e.inflight + 1 }) ran

-- The arguments of a run that ends over the registry that a handler leaves.
module _ (d : Driver) (py : Objects) (transport : Transport) (own_namespace name : String)
    (rspec : ResourceSpec) (choice at later : ℕ) (r : Registry) (closing late : List ℕ) where
  abbrev discovered : Handled
  discovered = on_connection_present d py transport own_namespace none name rspec choice at later r

  discovered-IsSound : IsSound r closing late → IsSound discovered.0 closing late
  discovered-IsSound i =
      let s : World = record { registry = r; waiting = []; closing = closing; late = late } in
      Reach-IsWorld d py (λ now. transport) own_namespace s (record s { registry = discovered.0 }) i
        (handlers-run d py transport own_namespace s none name rspec choice at later).present

  discovered_ready :
      (status : Dict StatusValue)
      → IsSound r closing late
      → discovered.1 ≡ ok status
      → readiness discovered.0 name ≡ some true
  discovered_ready status i patched = readiness_reported discovered.0 name status (
      subst (λ answer. IsTrue (resource_key none name) (discovered.0, answer)) patched
        (handlers-IsTrue d py transport own_namespace none name rspec choice at later r closing late
          i).0)

  -- Once the discovery of a cluster-scoped connection has patched a status, the next pass over a valid
  -- query of that connection, with fewer runs than it may have, starts a run, and that run ends, with
  -- enough fuel, whatever the nodes answer.
  pub discovered-Served :
      (expire_after : ℕ) (node_label : String) (random : ℕ → ℕ) (now fuel duration finished : ℕ)
      (es : Entries) (key : String) (e : CachedMetric) (spec : QuerySpec) (config : OperatorConfig)
      (wall_time loop_time timeout : ℕ) (status : Dict StatusValue)
      → IsSound r closing late
      → discovered.1 ≡ ok status
      → spec.connection_ref ≡ name
      → get es key ≡ some e
      → e.invalid_reason ≡ none
      → e.inflight < concurrency spec config
      → HasFuel discovered.0 spec.connection_ref fuel
      → Served d py expire_after node_label random now fuel duration finished discovered.0 closing
          late e
          (task_of key spec timeout loop_time)
          (pass es key spec config
            (readiness discovered.0 spec.connection_ref)
            wall_time
            loop_time
            timeout)
  discovered-Served expire_after node_label random now fuel duration finished es key e spec config
        wall_time loop_time timeout status i patched named here valid free enough =
      let task = task_of key spec timeout loop_time in
      let starts =
        pass_starts es key spec config wall_time loop_time timeout
          (rw (invalid_of es key e here) valid) (rw (inflight_of es key e here) free) in
      let (ran, ends, ended) =
        run_query-Ended d py expire_after node_label task random now fuel duration finished
          discovered.0 closing late (inc_inflight es key) (record e { inflight = e.inflight + 1 })
          (discovered-IsSound i) (get-inc_inflight es key e here) enough in
      rw (ap (readiness discovered.0) named ∙ discovered_ready status i patched, starts)
        (record { started = refl; ran = ran; ends = ends; ended = ended })
