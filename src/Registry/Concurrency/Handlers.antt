-- ===== src/Registry/Concurrency/Handlers.antt =====
-- A handler that nothing interrupts is a run of steps (src/promch/handlers/connection.py).
use prometheus_ch_exporter.Prelude.{ℕ, String, refl, Option, [], Option-cases, inl, inr}
use prometheus_ch_exporter.Prelude.Result.{Result-cases}
use prometheus_ch_exporter.Cells.{Objects}
use prometheus_ch_exporter.Cluster.Node.{Driver}
use prometheus_ch_exporter.Secrets.Reader.{Transport}
use prometheus_ch_exporter.Registry.{
  Registry, build, ensure_connection, ensure_and_pass, run_pass, pop_and_close,
  on_connection_present, on_connection_update, on_connection_recheck, on_connection_topology,
  on_connection_delete, resource_key,
}
use prometheus_ch_exporter.Registry.Ensure.{
  build_found, ensure_there, ensure_refused, ensure_built, pop_missing, pop_there,
}
use prometheus_ch_exporter.Registry.Keyed.{Key, find}
use prometheus_ch_exporter.Registry.Spec.{ResourceSpec, resolve_spec}
use prometheus_ch_exporter.Registry.Concurrency.{
  World, PassKind, refreshing, rechecking, rediscovering, pass_of, missed, resumed, refused, passed,
  popped, closed, Reach, here, next,
}

module _ (d : Driver) (py : Objects) (transport : Transport) (own_namespace : String) where
  abbrev pub Run : World → World → Type 0
  Run = Reach d py (λ now. transport) own_namespace

  -- The state of a handler that nothing interrupts.
  abbrev pub with_registry : World → Registry → World
  with_registry s r = record s { registry = r }

  pub Run_trans : (s t u : World) → Run s t → Run t u → Run s u
  Run_trans s t u first here = first
  Run_trans s t u first (next {t = v} run step) = next (Run_trans s t v first run) step

  -- A connection that is there or built, and the pass over it.
  ensure_and_pass-Run :
      (s : World) (kind : PassKind) (key : Key) (spec : ResourceSpec) (random now later : ℕ)
      → Run s (
          with_registry s
            (ensure_and_pass
              (pass_of d py kind random now later)
              (ensure_connection transport own_namespace key spec now s.registry)).0)
  unfolding ensure_and_pass run_pass
  ensure_and_pass-Run s kind key spec random now later =
      elim (Option-cases (find s.registry.connections key)) [
        | inr (id, found) ↦
            rw (ensure_there transport own_namespace key spec now s.registry id found)
              (next here (passed key id kind random now later found refl))
        | inl nobody ↦ elim (Result-cases (resolve_spec transport own_namespace spec)) [
          | inr (message, fails) ↦
              rw
                (ensure_refused transport own_namespace key spec now s.registry message nobody
                  fails)
                (next (next here (missed key spec nobody refl))
                  (refused [] s.waiting key spec message now refl fails refl))
          | inl (cspec, reads) ↦
              rw (ensure_built transport own_namespace key spec now s.registry cspec nobody reads) (
                next
                  (next (next here (missed key spec nobody refl))
                    (resumed [] s.waiting key spec cspec now refl reads refl))
                  (passed key (build s.registry key cspec now).1 kind random now later
                    (build_found s.registry key cspec now nobody) refl))
        ]
      ]

  pop_and_close-Run :
      (s : World) (key : Key) → Run s (with_registry s (pop_and_close s.registry key))
  pop_and_close-Run s key = elim (Option-cases (find s.registry.connections key)) [
    | inl nobody ↦ rw (pop_missing s.registry key nobody) here
    | inr (id, found) ↦
        rw (pop_there s.registry key id found)
          (next (next here (popped key id found refl)) (closed [] s.closing id refl refl))
  ]

  -- Each handler, on the registry that it finds.
  pub record HandlersRun (s : World) (namespace : Option String) (name : String)
      (spec : ResourceSpec) (random now later : ℕ) : Type 0 where
    pub present : Run s (
        with_registry s
          (on_connection_present d py transport own_namespace namespace name spec random now later
            s.registry).0)
    pub update : Run s (
        with_registry s
          (on_connection_update d py transport own_namespace namespace name spec random now later
            s.registry).0)
    pub recheck : Run s (
        with_registry s
          (on_connection_recheck d py transport own_namespace namespace name spec random now later
            s.registry).0)
    pub topology : Run s (
        with_registry s
          (on_connection_topology d py transport own_namespace namespace name spec random now later
            s.registry).0)
    pub delete : Run s (with_registry s (on_connection_delete namespace name s.registry))

-- Each handler of a connection, where nothing interrupts it, is a run of steps of the interleaved
-- system, so what holds after any interleaving holds after any sequence of handlers.
pub handlers-run :
    (d : Driver) (py : Objects) (transport : Transport) (own_namespace : String) (s : World)
    (namespace : Option String) (name : String) (spec : ResourceSpec) (random now later : ℕ)
    → HandlersRun d py transport own_namespace s namespace name spec random now later
unfolding on_connection_present on_connection_update on_connection_recheck on_connection_topology
    on_connection_delete
handlers-run d py transport own_namespace s namespace name spec random now later =
    let key = resource_key namespace name in
    let popped_first = pop_and_close-Run d py transport own_namespace s key in
    record {
      present =
          ensure_and_pass-Run d py transport own_namespace s refreshing key spec random now later;
      update = Run_trans d py transport own_namespace s _ _ popped_first (
          ensure_and_pass-Run d py transport own_namespace
            (record s { registry = pop_and_close s.registry key }) refreshing key spec random now
            later);
      recheck =
          ensure_and_pass-Run d py transport own_namespace s rechecking key spec random now later;
      topology =
          ensure_and_pass-Run d py transport own_namespace s rediscovering key spec random now
            later;
      delete = popped_first;
    }
