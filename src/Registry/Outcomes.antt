-- ===== src/Registry/Outcomes.antt =====
-- What the handlers of src/promch/handlers/connection.py leave in the registry, and what they report.
use prometheus_ch_exporter.Prelude.{
  ℕ, suc, ◌<◌, String, ◌≡◌, refl, ◌∙◌, true, false, Option, none, some, List, [], ◌∷◌, arith,
  nat_eq, Option-cases, inl, inr,
}
use prometheus_ch_exporter.Prelude.Result.{ok, err, Result-cases}
use prometheus_ch_exporter.Dict.{Dict}
use prometheus_ch_exporter.Cells.{Objects}
use prometheus_ch_exporter.Cluster.Node.{Driver}
use prometheus_ch_exporter.Cluster.Topology.{ConnectionSpec}
use prometheus_ch_exporter.Cluster.Topology.Pool.{IsPool, new_topology-IsPool}
use prometheus_ch_exporter.Cluster.Connection.{
  Connection, Pass, close_connection, new_connection, refresh,
}
use prometheus_ch_exporter.Cluster.Snapshot.{status_snapshot}
use prometheus_ch_exporter.Cluster.Connection.Passes.{IsPass, passes-IsPass}
use prometheus_ch_exporter.Secrets.Reader.{Transport}
use prometheus_ch_exporter.Registry.{
  Registry, change, pop, build, close_object, ensure_connection, ensure_and_pass, run_pass,
  pop_and_close, on_connection_present, on_connection_update, on_connection_recheck,
  on_connection_topology, resource_key, Handled,
}
use prometheus_ch_exporter.Registry.Ensure.{
  build_found, ensure_there, ensure_refused, ensure_built, pop_missing, pop_there,
}
use prometheus_ch_exporter.Registry.Keyed.{Key, find, set, find-set, find-drop, same_key_refl}
use prometheus_ch_exporter.Registry.Spec.{ResourceSpec, resolve_spec}
use prometheus_ch_exporter.Registry.Report.{StatusValue, status_to_dict}
use prometheus_ch_exporter.Registry.Concurrency.{
  PassKind, refreshing, rechecking, rediscovering, pass_of,
}
use prometheus_ch_exporter.Registry.Concurrency.Invariant.{IsSound, IsClosed, close_all-IsClosed}
use prometheus_ch_exporter.Registry.Concurrency.Changes.{
  known_key, build-IsSound, pop-IsSound, close-IsSound,
}

-- A status that a handler patches is that of the connection under its key, which is ready.
pub record IsReported (r : Registry) (key : Key) (status : Dict StatusValue) : Type 0 where
  pub id : ℕ
  pub registered : find r.connections key ≡ some id
  pub ready : (r.heap id).is_ready ≡ true
  pub shown : status ≡ status_to_dict (status_snapshot (r.heap id).topology)

abbrev pub IsTrue : Key → Handled → Type 0
IsTrue key (r, ok status) = IsReported r key status
IsTrue key (r, err message) = Unit

pass_of-IsPass :
    (d : Driver) (py : Objects) (kind : PassKind) (c : Connection) (random now later : ℕ)
    → IsPool c.topology
    → IsPass c (pass_of d py kind random now later c)
pass_of-IsPass d py refreshing c random now later p = (passes-IsPass d py c random now later p).2
pass_of-IsPass d py rechecking c random now later p = (passes-IsPass d py c random now later p).0
pass_of-IsPass d py rediscovering c random now later p = (passes-IsPass d py c random now later p).1

nat_eq_refl : (n : ℕ) → nat_eq n n ≡ true
nat_eq_refl n = ground arith

run_pass-IsTrue :
    (f : Connection → Pass) (r : Registry) (key : Key) (id : ℕ)
    → find r.connections key ≡ some id
    → IsPass (r.heap id) (f (r.heap id))
    → IsTrue key (run_pass f r id)
unfolding run_pass change
run_pass-IsTrue f r key id found is_pass = elim (Result-cases (f (r.heap id)).1) [
  | inr (e, raises) ↦ rw (raises, run_pass) tt
  | inl (status, returns) ↦
      rw (returns, run_pass)
        (record {
          id = id;
          registered = found;
          ready = rw (nat_eq_refl id) (ground (arith, is_pass.ready, returns));
          shown = rw (nat_eq_refl id) (rw (is_pass.report status returns) refl);
        })
]

module _ (d : Driver) (py : Objects) (transport : Transport) (own_namespace : String) (r : Registry)
    (closing late : List ℕ) (i : IsSound r closing late) where
  ensure_and_pass-IsTrue :
      (kind : PassKind) (key : Key) (spec : ResourceSpec) (random now later : ℕ)
      → IsTrue key (
          ensure_and_pass
            (pass_of d py kind random now later)
            (ensure_connection transport own_namespace key spec now r))
  unfolding ensure_and_pass
  ensure_and_pass-IsTrue kind key spec random now later =
      elim (Option-cases (find r.connections key)) [
        | inr (id, found) ↦ rw (ensure_there transport own_namespace key spec now r id found) (
            run_pass-IsTrue (pass_of d py kind random now later) r key id found (
              pass_of-IsPass d py kind (r.heap id) random now later
                (i.pools id (known_key r closing late i key id found))))
        | inl nobody ↦ elim (Result-cases (resolve_spec transport own_namespace spec)) [
          | inr (message, fails) ↦
              rw (ensure_refused transport own_namespace key spec now r message nobody fails) tt
          | inl (cspec, reads) ↦
              let r' = (build r key cspec now).0 in
              let new = (build r key cspec now).1 in
              let found = build_found r key cspec now nobody in
              let sound = build-IsSound r closing late i key cspec now in
              rw (ensure_built transport own_namespace key spec now r cspec nobody reads) (
                run_pass-IsTrue (pass_of d py kind random now later) r' key new found (
                  pass_of-IsPass d py kind (r'.heap new) random now later
                    (sound.pools new (known_key r' closing late sound key new found))))
        ]
      ]

  pop_and_close-IsSound : (key : Key) → IsSound (pop_and_close r key) closing late
  pop_and_close-IsSound key = elim (Option-cases (find r.connections key)) [
    | inl nobody ↦ rw (pop_missing r key nobody) i
    | inr (id, found) ↦ rw (pop_there r key id found) (
        close-IsSound (pop r key) (id ∷ closing) late (pop-IsSound r closing late i key id found) []
          closing id refl)
  ]

-- Whatever the nodes and the API server answer, a status that a handler patches is that of the
-- connection that it leaves under the key of the resource, which is then ready.
pub handlers-IsTrue :
    (d : Driver) (py : Objects) (transport : Transport) (own_namespace : String)
    (namespace : Option String) (name : String) (spec : ResourceSpec) (random now later : ℕ)
    (r : Registry) (closing late : List ℕ)
    → IsSound r closing late
    → IsTrue
        (resource_key namespace name)
        (on_connection_present d py transport own_namespace namespace name spec random now later r)
      × IsTrue
          (resource_key namespace name)
          (on_connection_update d py transport own_namespace namespace name spec random now later r)
      × IsTrue (resource_key namespace name) (
          on_connection_recheck d py transport own_namespace namespace name spec random now later r)
      × IsTrue (resource_key namespace name) (
          on_connection_topology d py transport own_namespace namespace name spec random now later
            r)
unfolding on_connection_present on_connection_update on_connection_recheck on_connection_topology
handlers-IsTrue d py transport own_namespace namespace name spec random now later r closing late i =
    let key = resource_key namespace name in
    let after_pop = pop_and_close r key in
    (
      ensure_and_pass-IsTrue d py transport own_namespace r closing late i refreshing key spec
          random now later,
      ensure_and_pass-IsTrue d py transport own_namespace after_pop closing late
          (pop_and_close-IsSound d py transport own_namespace r closing late i key) refreshing key
          spec random now later,
      ensure_and_pass-IsTrue d py transport own_namespace r closing late i rechecking key spec
          random now later,
      ensure_and_pass-IsTrue d py transport own_namespace r closing late i rediscovering key spec
          random now later,
    )

-- An update puts a new connection in the place of the old one, built from the new specification, and
-- leaves the old one without a client.
pub record IsRebuilt (r r' : Registry) (key : Key) (old : ℕ) (cspec : ConnectionSpec) : Type 0 where
  pub renewed : find r'.connections key ≡ some r.built
  pub counted : r'.built ≡ suc r.built
  pub from_spec : (r'.heap r.built).spec ≡ cspec
  pub old_closed : IsClosed (r'.heap old).topology

-- A build after a drop.
build_new :
    (r : Registry) (key : Key) (cspec : ConnectionSpec) (now : ℕ)
    → find r.connections key ≡ none
    → build r key cspec now ≡ (
      record (change r r.built (new_connection cspec now)) {
        connections = set r.connections key r.built;
        built = suc r.built;
      },
      r.built,
    )
unfolding build
build_new r key cspec now nobody = rw (build, nobody) refl

rebuild-IsRebuilt :
    (f : Connection → Pass) (r r0 : Registry) (key : Key) (old : ℕ) (cspec : ConnectionSpec)
    (now : ℕ)
    → ((c : Connection) → IsPool c.topology → IsPass c (f c))
    → r0.built ≡ r.built
    → find r0.connections key ≡ none
    → old < r.built
    → IsClosed (r0.heap old).topology
    → IsRebuilt r (run_pass f (build r0 key cspec now).0 (build r0 key cspec now).1).0 key old cspec
unfolding run_pass change new_connection
rebuild-IsRebuilt f r r0 key old cspec now passes same nobody below is_closed =
    rw (build_new r0 key cspec now nobody) (record {
      renewed = rw (find-set r0.connections key r0.built key, same_key_refl key, same) refl;
      counted = rw same refl;
      from_spec = rw (← same) (
          rw (nat_eq_refl r0.built)
            (passes (new_connection cspec now) (new_topology-IsPool cspec now).0).spec_kept);
      old_closed =
          let other : nat_eq old r0.built ≡ false = ground (arith, below, same) in
          rw other is_closed;
    })

pub on_connection_update-IsRebuilt :
    (d : Driver) (py : Objects) (transport : Transport) (own_namespace : String)
    (namespace : Option String) (name : String) (spec : ResourceSpec) (random now later : ℕ)
    (r : Registry) (closing late : List ℕ) (old : ℕ) (cspec : ConnectionSpec)
    → IsSound r closing late
    → find r.connections (resource_key namespace name) ≡ some old
    → resolve_spec transport own_namespace spec ≡ ok cspec
    → IsRebuilt r
        (on_connection_update d py transport own_namespace namespace name spec random now later r).0
        (resource_key namespace name)
        old
        cspec
unfolding on_connection_update on_connection_present ensure_and_pass close_object change pop
    close_connection
on_connection_update-IsRebuilt d py transport own_namespace namespace name spec random now later r
      closing late old cspec i found reads =
    let key = resource_key namespace name in
    let nobody : find (close_object (pop r key) old).connections key ≡ none =
      find-drop r.connections key key ∙ rw (same_key_refl key) refl in
    rw (pop_there r key old found) (
      rw
        (ensure_built transport own_namespace key spec now (close_object (pop r key) old) cspec
          nobody reads)
        (rebuild-IsRebuilt (λ c. refresh d py c random now later) r (close_object (pop r key) old)
          key old cspec now (λ c p. (passes-IsPass d py c random now later p).2) refl nobody
          (known_key r closing late i key old found)
          (rw (nat_eq_refl old) (close_all-IsClosed (r.heap old).topology))))
