-- ===== src/Registry.antt =====
-- src/promch/handlers/connection.py: the registry of connections and the handlers that drive it. A
-- connection is an object of a heap, and the registry holds its number, since a handler or a run may
-- hold an object that the registry has dropped. Times and random numbers are arguments, and logging
-- is left out.
pub mod Keyed
pub mod Spec
pub mod Report
pub mod Ensure
pub mod Outcomes
pub mod Concurrency
use prometheus_ch_exporter.Prelude.{
  ℕ, suc, String, ◌<>◌, Bool, true, false, Option, none, some, List, [], ◌∷◌, nat_eq, if◌then◌else◌,
}
use prometheus_ch_exporter.Prelude.Result.{Result, ok, err, ◌>>=◌}
use prometheus_ch_exporter.Dict.{Dict}
use prometheus_ch_exporter.Cells.{Objects}
use prometheus_ch_exporter.Cluster.Node.{Driver}
use prometheus_ch_exporter.Cluster.Topology.{ConnectionSpec}
use prometheus_ch_exporter.Cluster.Connection.{
  Connection, Pass, new_connection, refresh, recheck, rediscover, close_connection,
}
use prometheus_ch_exporter.Secrets.Reader.{Transport}
use prometheus_ch_exporter.Registry.Keyed.{Key, KeyDict, find, set, drop, objects}
use prometheus_ch_exporter.Registry.Spec.{ResourceSpec, resolve_spec}
use prometheus_ch_exporter.Registry.Report.{StatusValue, status_to_dict}

-- `_connections`, and every connection that was built so far, by its number.
pub record Registry : Type 0 where
  pub connections : KeyDict ℕ
  pub heap : ℕ → Connection
  pub built : ℕ

-- `_resource_key`
unfoldable pub resource_key : (namespace : Option String) (name : String) → Key
resource_key none name = ("", name)
resource_key (some namespace) name = (namespace, name)

-- `get_connection`
unfoldable pub get_connection : Registry → (name : String) → Option ℕ
unfolding find resource_key
get_connection r name = find r.connections (resource_key none name)

-- The object with this number becomes `c`.
unfoldable pub change : Registry → ℕ → Connection → Registry
change r id c = record r { heap = λ i. if nat_eq i id then c else r.heap i }

-- `_connections.pop(key, None)`, without the object
unfoldable pub pop : Registry → Key → Registry
unfolding drop
pop r key = record r { connections = drop r.connections key }

-- The rest of `_ensure_connection` after its await: the re-check, and the new object.
unfoldable pub build : Registry → Key → ConnectionSpec → (now : ℕ) → Registry × ℕ
unfolding find set change new_connection
build r key spec now = elim (find r.connections key) [
  | some id ↦ (r, id)
  | none ↦ (
    record (change r r.built (new_connection spec now)) {
      connections = set r.connections key r.built;
      built = suc r.built;
    },
    r.built,
  )
]

-- The message of the TemporaryError.
unfoldable pub temporary_error : (name message : String) → String
temporary_error name message = "connection " <> (name <> (": " <> message))

-- `_ensure_connection`, where nothing else runs during its await.
module _ (transport : Transport) (own_namespace : String) (key : Key) (spec : ResourceSpec)
    (now : ℕ) where
  unfoldable pub ensure_connection : Registry → Registry × Result String ℕ
  unfolding find resolve_spec build temporary_error
  ensure_connection r = elim (find r.connections key) [
    | some id ↦ (r, ok id)
    | none ↦ elim (resolve_spec transport own_namespace spec) [
      | err message ↦ (r, err (temporary_error key.1 message))
      | ok cspec ↦ let (r', id) = build r key cspec now in (r', ok id)
    ]
  ]

-- A handler leaves a registry, and patches a status or raises.
abbrev pub Handled : Type 0
Handled = Registry × Result String (Dict StatusValue)

-- A pass over the object with this number.
unfoldable pub run_pass : (Connection → Pass) → Registry → ℕ → Handled
unfolding change status_to_dict
run_pass f r id =
    let (c, answer) = f (r.heap id) in
    (change r id c, answer >>= λ status. ok (status_to_dict status))

-- What the handlers share: a connection that is there or built, and a pass over it.
unfoldable pub ensure_and_pass : (Connection → Pass) → Registry × Result String ℕ → Handled
unfolding run_pass
ensure_and_pass f (r, err message) = (r, err message)
ensure_and_pass f (r, ok id) = run_pass f r id

unfoldable pub close_object : Registry → ℕ → Registry
unfolding change close_connection
close_object r id = change r id (close_connection (r.heap id))

-- `on_connection_delete`, and what `on_connection_update` begins with.
unfoldable pub pop_and_close : Registry → Key → Registry
unfolding find pop close_object
pop_and_close r key = elim (find r.connections key) [
  | none ↦ r
  | some id ↦ close_object (pop r key) id
]

module _ (d : Driver) (py : Objects) (transport : Transport) (own_namespace : String)
    (namespace : Option String) (name : String) (spec : ResourceSpec) (random now later : ℕ) where
  unfoldable pub on_connection_present : Registry → Handled
  unfolding ensure_connection ensure_and_pass refresh resource_key
  on_connection_present r =
      ensure_and_pass (λ c. refresh d py c random now later)
        (ensure_connection transport own_namespace (resource_key namespace name) spec now r)

  unfoldable pub on_connection_update : Registry → Handled
  unfolding pop_and_close on_connection_present resource_key
  on_connection_update r = on_connection_present (pop_and_close r (resource_key namespace name))

  unfoldable pub on_connection_recheck : Registry → Handled
  unfolding ensure_connection ensure_and_pass recheck resource_key
  on_connection_recheck r =
      ensure_and_pass (λ c. recheck d c now later)
        (ensure_connection transport own_namespace (resource_key namespace name) spec now r)

  unfoldable pub on_connection_topology : Registry → Handled
  unfolding ensure_connection ensure_and_pass rediscover resource_key
  on_connection_topology r =
      ensure_and_pass (λ c. rediscover d py c random now later)
        (ensure_connection transport own_namespace (resource_key namespace name) spec now r)

unfoldable pub on_connection_delete :
    (namespace : Option String) (name : String) → Registry → Registry
unfolding pop_and_close resource_key
on_connection_delete namespace name r = pop_and_close r (resource_key namespace name)

-- `_close_bounded` of each object: one whose close does not end in time stays as it is.
unfoldable pub close_bounded : (in_time : ℕ → Bool) → List ℕ → Registry → Registry
unfolding close_object
close_bounded in_time [] r = r
close_bounded in_time (id ∷ ids) r =
    close_bounded in_time ids (if in_time id then close_object r id else r)

unfoldable pub on_operator_cleanup : (in_time : ℕ → Bool) → Registry → Registry
unfolding close_bounded
on_operator_cleanup in_time r =
    close_bounded in_time (objects r.connections) (record r { connections = [] })
