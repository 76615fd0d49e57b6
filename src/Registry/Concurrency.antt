-- ===== src/Registry/Concurrency.antt =====
-- The handlers of src/promch/handlers/connection.py and the queries of query.py, interleaved. What
-- happens between two awaits is one step, and so is a pass or a close, which holds the lock of its
-- connection, at the place where it asks for the lock: nothing is awaited between the lookup of a
-- connection and that. A query holds no lock: each of its operations on a node is a step, on any
-- connection that was built, for a query keeps the one that it looked up. A node that a pass has
-- taken out of the pool is no longer seen, and calls within a pass stand before or after it.
pub mod Invariant
pub mod Changes
pub mod Calls
pub mod Reached
pub mod Identity
pub mod Late
pub mod Handlers
use prometheus_ch_exporter.Prelude.{
  ℕ, String, ◌≡◌, Option, none, some, List, [], ◌∷◌, ◌++◌, ◌<◌, ◌≢◌, ◌⊎◌, true, false, Bool, any_of,
  nat_eq,
}
use prometheus_ch_exporter.Prelude.Result.{Result, ok, err}
use prometheus_ch_exporter.Dict.{get}
use prometheus_ch_exporter.Cells.{Objects}
use prometheus_ch_exporter.Cluster.Node.{
  Driver, DriverError, ResultSet, Node, ensure_client, receive,
}
use prometheus_ch_exporter.Cluster.Topology.{ConnectionSpec, store}
use prometheus_ch_exporter.Cluster.Connection.{Connection, Pass, refresh, recheck, rediscover}
use prometheus_ch_exporter.Secrets.Reader.{Transport}
use prometheus_ch_exporter.Registry.{Registry, change, pop, build, close_object}
use prometheus_ch_exporter.Registry.Keyed.{Key, find, objects}
use prometheus_ch_exporter.Registry.Spec.{ResourceSpec, resolve_spec}

-- `id in ids`
abbrev pub has_id : List ℕ → ℕ → Bool
has_id ids id = any_of (λ i. nat_eq i id) ids

-- No key has the connection.
abbrev pub IsDropped : Registry → ℕ → Type 0
IsDropped r id = (key : Key) → find r.connections key ≢ some id

-- The registry, the handlers that wait for a secret, and the connections that wait to be closed. The
-- program does not keep `late`: the connections that a query has gone on with after their close.
pub record World : Type 0 where
  pub registry : Registry
  pub waiting : List (Key × ResourceSpec)
  pub closing : List ℕ
  pub late : List ℕ

-- The passes that a handler runs.
pub data PassKind : Type 0 where
  refreshing rechecking rediscovering : PassKind

abbrev pub pass_of : Driver → Objects → PassKind → (random now later : ℕ) → Connection → Pass
pass_of d py refreshing random now later c = refresh d py c random now later
pass_of d py rechecking random now later c = recheck d c now later
pass_of d py rediscovering random now later c = rediscover d py c random now later

-- A call on a node is two operations, each after its await: a client is there or made, and an answer
-- of the driver is taken. Others may come between them.
pub data Called (d : Driver) (n n' : Node) : Type 0 where
  asked : (now : ℕ) → n' ≡ (ensure_client d n now).0 → Called d n n'
  received :
      (now : ℕ) (answer : Result DriverError ResultSet)
      → n' ≡ (receive d n now answer).0
      → Called d n n'

-- The connection, with this node in its pool.
abbrev pub with_node : Registry → ℕ → Node → Registry
with_node r id n = change r id (record (r.heap id) { topology = store (r.heap id).topology n })

module _ (d : Driver) (py : Objects) (transport : ℕ → Transport) (own_namespace : String) where
  -- One step. The transport's answers depend on the time.
  pub data Step (s t : World) : Type 0 where
    -- `_ensure_connection` finds nothing, and waits for the secret.
    missed :
        (key : Key) (spec : ResourceSpec)
        → find s.registry.connections key ≡ none
        → t ≡ record s { waiting = (key, spec) ∷ s.waiting }
        → Step s t
    -- It goes on with what it read, and checks again.
    resumed :
        (before after : List (Key × ResourceSpec)) (key : Key) (spec : ResourceSpec)
        (cspec : ConnectionSpec) (now : ℕ)
        → s.waiting ≡ before ++ (key, spec) ∷ after
        → resolve_spec (transport now) own_namespace spec ≡ ok cspec
        → t ≡ record s { registry = (build s.registry key cspec now).0; waiting = before ++ after }
        → Step s t
    -- It raises, since the secret could not be read.
    refused :
        (before after : List (Key × ResourceSpec)) (key : Key) (spec : ResourceSpec)
        (message : String) (now : ℕ)
        → s.waiting ≡ before ++ (key, spec) ∷ after
        → resolve_spec (transport now) own_namespace spec ≡ err message
        → t ≡ record s { waiting = before ++ after }
        → Step s t
    -- A handler runs a pass over the connection that it found.
    passed :
        (key : Key) (id : ℕ) (kind : PassKind) (random now later : ℕ)
        → find s.registry.connections key ≡ some id
        → t ≡ record s {
          registry =
              change s.registry id (pass_of d py kind random now later (s.registry.heap id)).0;
        }
        → Step s t
    -- A query goes on with a node of a connection that it looked up, which is registered or waits
    -- to be closed.
    called :
        (id : ℕ) (host : String) (n n' : Node)
        → ((key : Key) × (find s.registry.connections key ≡ some id)) ⊎ (has_id s.closing id ≡ true)
        → get (s.registry.heap id).topology.nodes host ≡ some n
        → Called d n n'
        → t ≡ record s { registry = with_node s.registry id n' }
        → Step s t
    -- It goes on after the connection was dropped and closed.
    called_late :
        (id : ℕ) (host : String) (n n' : Node)
        → id < s.registry.built
        → IsDropped s.registry id
        → has_id s.closing id ≡ false
        → get (s.registry.heap id).topology.nodes host ≡ some n
        → Called d n n'
        → t ≡ record s { registry = with_node s.registry id n'; late = id ∷ s.late }
        → Step s t
    -- An update or a deletion takes a connection out of the registry, and begins to close it.
    popped :
        (key : Key) (id : ℕ)
        → find s.registry.connections key ≡ some id
        → t ≡ record s { registry = pop s.registry key; closing = id ∷ s.closing }
        → Step s t
    closed :
        (before after : List ℕ) (id : ℕ)
        → s.closing ≡ before ++ id ∷ after
        → t ≡ record s { registry = close_object s.registry id; closing = before ++ after }
        → Step s t
    -- The cleanup of the operator takes all connections out of the registry.
    cleared :
        t ≡ record s {
          registry = record s.registry { connections = [] };
          closing = objects s.registry.connections ++ s.closing;
        }
        → Step s t

  pub data Reach (s : World) : World → Type 0 where
    here : Reach s s
    next : {t u : World} → Reach s t → Step t u → Reach s u
