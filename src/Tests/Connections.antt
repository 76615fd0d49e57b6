-- ===== src/Tests/Connections.antt =====
-- The registry of connections and runs over it (src/promch/handlers/connection.py and query.py): `a`
-- answers rows, and nothing connects to `b`.
use prometheus_ch_exporter.Prelude.{
  ◌≡◌, refl, true, Option, none, some, [], ◌∷◌, arith, ◌==◌, if◌then◌else◌,
}
use prometheus_ch_exporter.Prelude.Result.{ok, err}
use prometheus_ch_exporter.Dict.{get}
use prometheus_ch_exporter.Cells.{Cell, text, object, Objects}
use prometheus_ch_exporter.Collector.{Float}
use prometheus_ch_exporter.Cluster.Node.{Driver, ResultSet, Node, new_node, query, rows_of}
use prometheus_ch_exporter.Cluster.Topology.{
  ConnectionSpec, Topology, discovery_sql, pick_one_live, store, members_of, refresh_topology,
}
use prometheus_ch_exporter.Cluster.Topology.Membership.{Discovered}
use prometheus_ch_exporter.Cluster.Connection.Discovery.{refresh_topology-discovers}
use prometheus_ch_exporter.Cluster.Connection.{new_connection}
use prometheus_ch_exporter.Cluster.Snapshot.{ConnectionStatus, status_snapshot}
use prometheus_ch_exporter.Registry.{
  Registry, resource_key, on_connection_present, on_connection_update, on_connection_recheck,
  on_connection_topology, on_connection_delete,
}
use prometheus_ch_exporter.Registry.Keyed.{find}
use prometheus_ch_exporter.Registry.Spec.{spec_to_connection_spec}
use prometheus_ch_exporter.Registry.Report.{status_to_dict}
use prometheus_ch_exporter.Registry.Report.ReadBack.{read_status, seen_of, read_status-dict}
use prometheus_ch_exporter.Registry.Outcomes.{
  IsTrue, handlers-IsTrue, IsRebuilt, on_connection_update-IsRebuilt,
}
use prometheus_ch_exporter.Registry.Concurrency.{World}
use prometheus_ch_exporter.Registry.Concurrency.Invariant.{IsSound}
use prometheus_ch_exporter.Registry.Concurrency.Reached.{IsWorld, Reach-IsWorld}
use prometheus_ch_exporter.Registry.Concurrency.Identity.{IsOwned, Reach-IsOwned}
use prometheus_ch_exporter.Registry.Concurrency.Handlers.{handlers-run}
use prometheus_ch_exporter.Tests.Secrets.{api_server, resource}

abbrev members : ResultSet
members = record {
  column_names = "cluster" ∷ "host_name" ∷ [];
  result_rows = (text "main" ∷ text "a" ∷ []) ∷ (text "main" ∷ text "b" ∷ []) ∷ [];
}

abbrev one_row : ResultSet
one_row = record { column_names = "value" ∷ []; result_rows = (object 3 ∷ []) ∷ [] }

abbrev pub driver : Driver
driver = record {
  connect = λ host now. if host == "b" then err "timed out" else ok tt;
  run = λ host sql now. if sql == discovery_sql then ok members else ok one_row;
  ping = λ host now. ok true;
}

abbrev numbers : Cell → Option Float
numbers (text s) = none
numbers (object n) = some (record { bits = n })

abbrev pub py : Objects
py = record { to_float = numbers; str_object = λ n. "object"; repr_object = λ n. "object" }

abbrev pub empty : Registry
empty = record {
  connections = [];
  heap = λ id. new_connection (spec_to_connection_spec resource [] none) 0;
  built = 0;
}

pub empty-IsSound : IsSound empty [] []
unfolding find
empty-IsSound = record {
  known = λ id h. cc;
  single = λ j k id h g. cc;
  pools = λ id below. ground (arith, below);
  pending = λ id h. cc;
  clean = λ id below dropped out timely. ground (arith, below);
}

abbrev start : World
start = record { registry = empty; waiting = []; closing = []; late = [] }

abbrev pub discovered : Registry
discovered = (on_connection_present driver py api_server "ops" none "main" resource 0 1 2 empty).0

abbrev after_discovery : World
after_discovery = record { registry = discovered; waiting = []; closing = []; late = [] }

Reach-IsWorld_example : IsWorld after_discovery
Reach-IsWorld_example =
    Reach-IsWorld driver py (λ now. api_server) "ops" start after_discovery empty-IsSound
      (handlers-run driver py api_server "ops" start none "main" resource 0 1 2).present

pub after_discovery-IsSound : IsSound discovered [] []
after_discovery-IsSound =
    Reach-IsWorld driver py (λ now. api_server) "ops" start after_discovery empty-IsSound
      (handlers-run driver py api_server "ops" start none "main" resource 0 1 2).present

Reach-IsOwned_example :
    IsOwned
      (record after_discovery { registry = on_connection_delete none "main" discovered })
      ("", "main")
      0
unfolding on_connection_present resource_key find get
Reach-IsOwned_example =
    Reach-IsOwned driver py (λ now. api_server) "ops" after_discovery
      (record after_discovery { registry = on_connection_delete none "main" discovered })
      ("", "main") 0 after_discovery-IsSound refl
      (handlers-run driver py api_server "ops" after_discovery none "main" resource 0 1 2).delete

abbrev found_node : Option Node → Node
found_node none = new_node "" 0
found_node (some n) = n

abbrev after_deletion : World
after_deletion = record after_discovery { registry = on_connection_delete none "main" discovered }

-- The node `a` of the pool that was closed.
abbrev node_a : Node
node_a = found_node (get (after_deletion.registry.heap 0).topology.nodes "a")

handlers-IsTrue_example :
    IsTrue
      (resource_key none "main")
      (on_connection_present driver py api_server "ops" none "main" resource 0 1 2 empty)
    × IsTrue
        (resource_key none "main")
        (on_connection_update driver py api_server "ops" none "main" resource 0 1 2 empty)
    × IsTrue
        (resource_key none "main")
        (on_connection_recheck driver py api_server "ops" none "main" resource 0 1 2 empty)
    × IsTrue
        (resource_key none "main")
        (on_connection_topology driver py api_server "ops" none "main" resource 0 1 2 empty)
handlers-IsTrue_example =
    handlers-IsTrue driver py api_server "ops" none "main" resource 0 1 2 empty [] [] empty-IsSound

abbrev credentialed : ConnectionSpec
credentialed =
    spec_to_connection_spec resource (112 ∷ 228 ∷ [])
      (some (101 ∷ 120 ∷ 112 ∷ 111 ∷ 114 ∷ 116 ∷ 101 ∷ 114 ∷ []))

on_connection_update-IsRebuilt_example :
    IsRebuilt discovered
      (on_connection_update driver py api_server "ops" none "main" resource 0 5 6 discovered).0
      (resource_key none "main")
      0
      credentialed
unfolding on_connection_present resource_key find get
on_connection_update-IsRebuilt_example =
    on_connection_update-IsRebuilt driver py api_server "ops" none "main" resource 0 5 6 discovered
      [] [] 0 credentialed after_discovery-IsSound refl refl

abbrev snapshot : ConnectionStatus
snapshot = status_snapshot (discovered.heap 0).topology

read_status-dict_example : read_status (status_to_dict snapshot) ≡ some (seen_of snapshot)
read_status-dict_example = read_status-dict snapshot

-- The pool after its discovery is discovered again: `b` is a member, and is down.
abbrev pool : Topology
pool = (discovered.heap 0).topology

abbrev live_a : Node
live_a = found_node (get pool.nodes "a")

refresh_topology-discovers_example :
    Discovered driver
      (store pool (query driver live_a discovery_sql 11).0)
      (refresh_topology driver py (discovered.heap 0).spec pool 0 11 12).0
      ("a" ∷ "b" ∷ [])
      12
      "b"
unfolding on_connection_present pick_one_live query members_of get
refresh_topology-discovers_example =
    refresh_topology-discovers driver py (discovered.heap 0).spec pool 0 11 12 live_a
      (rows_of members) ("a" ∷ "b" ∷ []) "b" (after_discovery-IsSound.pools 0 (omega arith)) refl
      refl refl
