-- ===== src/Cluster/Connection.antt =====
-- src/promch/clickhouse/connection.py: queries over the pool. A data query's loop runs on fuel, and
-- its attempt number `a` stands for the time `now + a`; nothing else changes the pool between two
-- attempts. A system query asks the live nodes one after the other at one time, since each answer
-- changes its own node only.
pub mod Pick
pub mod Failover
pub mod Outcome
pub mod Answers
pub mod FanOut
pub mod Phase
pub mod Passes
pub mod Queried
pub mod Discovery
use prometheus_ch_exporter.Prelude.{
  ℕ, zero, suc, ◌+◌, String, ◌<>◌, ◌≡◌, Bool, true, false, not, ◌&&◌, ◌||◌, Option, none, some,
  List, [], ◌∷◌, ◌++◌, map, ltb, nat_eq, if◌then◌else◌, keep_if, contains, length, is_some,
  nonempty,
}
use prometheus_ch_exporter.Prelude.Sorting.{sorted_set}
use prometheus_ch_exporter.Prelude.Text.{repr}
use prometheus_ch_exporter.Prelude.Result.{Result, ok, err}
use prometheus_ch_exporter.Dict.{Dict, get, put, keys, values, has}
use prometheus_ch_exporter.Cells.{Cell, text, Row, Objects}
use prometheus_ch_exporter.Cluster.Node.{
  Driver, NodeError, connection_error, query_error, escaped, Node, query,
}
use prometheus_ch_exporter.Cluster.Topology.{
  ConnectionSpec, Topology, all_nodes, all_live, pick_one_live, store, health_tick, new_topology,
  close_all, refresh_topology,
}
use prometheus_ch_exporter.Query.Execute.{
  RunError, no_live_nodes, node_query, node_connection, other, Reply,
}
use prometheus_ch_exporter.Cluster.Snapshot.{hosts_of, ConnectionStatus, status_snapshot}

unfoldable pub no_live_error : ConnectionSpec → RunError
no_live_error spec = no_live_nodes ("no live nodes for cluster " <> spec.cluster_name)

-- `attempts > max_failovers`, if there is such a bound.
unfoldable pub gives_up : ConnectionSpec → (attempts : ℕ) → Bool
gives_up spec attempts = elim spec.max_failovers [ none ↦ false | some limit ↦ ltb limit attempts ]

-- What the loop does where no live node is left.
unfoldable pub out_of_nodes : ConnectionSpec → (last_error : Option String) → RunError
unfolding no_live_error
out_of_nodes spec none = no_live_error spec
out_of_nodes spec (some message) = node_connection message

abbrev pub DataResult : Type 0
DataResult = Topology × Result RunError (List Row)

module _ (d : Driver) (spec : ConnectionSpec) (random : ℕ → ℕ) (sql : String) (now : ℕ) where
  -- The `while True` of `execute_data_query`; none is out of fuel.
  unfoldable pub data_loop :
      (fuel : ℕ)
      → Topology
      → (tried : List String) (attempts : ℕ) (last_error : Option String) → Option DataResult
  unfolding pick_one_live query out_of_nodes gives_up
  data_loop zero t tried attempts last_error = none
  data_loop (suc fuel) t tried attempts last_error =
      elim (pick_one_live t tried (random attempts)) [
        | none ↦ some (t, err (out_of_nodes spec last_error))
        | some node ↦
            let (node', answer) = query d node sql (now + attempts) in
            let t' = store t node' in
            elim answer [
              | ok rows ↦ some (t', ok rows)
              | err (query_error message) ↦ some (t', err (node_query message))
              | err (escaped message) ↦ some (t', err (other message))
              | err (connection_error message) ↦
                  let rest = data_loop fuel t' (node.host ∷ tried) (suc attempts) (some message) in
                  if gives_up spec (suc attempts)
                  then some (t', err (node_connection message))
                  else rest
            ]
      ]

  unfoldable pub execute_data_query : (fuel : ℕ) → Topology → Option DataResult
  unfolding data_loop
  execute_data_query fuel t = data_loop fuel t [] 0 none

module _ (d : Driver) (sql : String) (now : ℕ) where
  -- `_run_on_node`: none for a node that is unreachable.
  unfoldable pub run_on_node : Node → Node × Result RunError (Option (List Row))
  unfolding query
  run_on_node node =
      let (node', answer) = query d node sql now in
      elim answer [
        | ok rows ↦ (node', ok (some rows))
        | err (connection_error message) ↦ (node', ok none)
        | err (query_error message) ↦ (node', err (node_query message))
        | err (escaped message) ↦ (node', err (other message))
      ]

  -- `asyncio.gather` over the nodes: what they answered, in their order, and the nodes when all have
  -- answered. It raises the error of the first node in order that has one; asyncio raises the first in
  -- time, while the others go on.
  unfoldable pub gather :
      List Node → List Node × Result RunError (List (String × Option (List Row)))
  unfolding run_on_node
  gather [] = ([], ok [])
  gather (node ∷ nodes) =
      let (node', answer) = run_on_node node in
      let (nodes', answers) = gather nodes in
      (
        node' ∷ nodes',
        elim answer [
          | err e ↦ err e
          | ok rows ↦ elim answers [ err e ↦ err e | ok more ↦ ok ((node.host, rows) ∷ more) ]
        ],
      )

-- `row[node_label] = node.host`, unless the query has such a column itself.
unfoldable pub label_rows : (node_label host : String) → List Row → Result RunError (List Row)
unfolding repr
label_rows node_label host [] = ok []
label_rows node_label host (row ∷ rows) =
    let rest = label_rows node_label host rows in
    if has row node_label
    then err
        (node_query ("query result uses reserved column " <> (repr node_label <> (" on " <> host))))
    else elim rest [ err e ↦ err e | ok more ↦ ok (put row node_label (text host) ∷ more) ]

-- The loop over the answers: all rows with their node, and the hosts that failed.
unfoldable pub merge_answers :
    (node_label : String) → List (String × Option (List Row)) → Result RunError Reply
unfolding label_rows
merge_answers node_label [] = ok (record { rows = []; failed_nodes = [] })
merge_answers node_label ((host, none) ∷ answers) = elim (merge_answers node_label answers) [
  | err e ↦ err e
  | ok reply ↦ ok (record reply { failed_nodes = host ∷ reply.failed_nodes })
]
merge_answers node_label ((host, some rows) ∷ answers) =
    let rest = merge_answers node_label answers in
    elim (label_rows node_label host rows) [
      | err e ↦ err e
      | ok labelled ↦ elim rest [
        | err e ↦ err e
        | ok reply ↦ ok (record reply { rows = labelled ++ reply.rows })
      ]
    ]

-- The members that are down; before a discovery every host counts as a member.
unfoldable pub down_members : Topology → List String
unfolding all_nodes
down_members t =
    hosts_of
      (keep_if (λ n. not n.alive && (n.in_cluster || not (is_some t.last_discovery))) (all_nodes t))

abbrev pub store_all : Topology → List Node → Topology
store_all t [] = t
store_all t (n ∷ ns) = store_all (store t n) ns

unfoldable pub execute_system_query :
    Driver
    → ConnectionSpec
    → (sql : String) (now : ℕ) (node_label : String) → Topology
    → Topology × Result RunError Reply
unfolding all_live gather merge_answers down_members no_live_error
execute_system_query d spec sql now node_label t =
    if nonempty (all_live t)
    then (let (nodes, answers) = gather d sql now (all_live t) in
        let t' = store_all t nodes in
        (
          t',
          elim answers [
            | err e ↦ err e
            | ok found ↦ elim (merge_answers node_label found) [
              | err e ↦ err e
              | ok reply ↦ ok (record reply {
                failed_nodes = sorted_set (reply.failed_nodes ++ down_members t');
              })
            ]
          ],
        ))
    else (t, err (no_live_error spec))

-- `ClickHouseConnection`: its specification, its pool, and whether a first pass has completed.
pub record Connection : Type 0 where
  pub spec : ConnectionSpec
  pub topology : Topology
  pub is_ready : Bool

unfoldable pub new_connection : ConnectionSpec → (now : ℕ) → Connection
unfolding new_topology
new_connection spec now = record { spec = spec; topology = new_topology spec now; is_ready = false }

-- A pass that completed sets the flag and reports; the error is what left the pass.
abbrev pub Pass : Type 0
Pass = Connection × Result String ConnectionStatus

abbrev pub complete : Connection → Topology → Pass
complete c t = (record c { topology = t; is_ready = true }, ok (status_snapshot t))

module _ (d : Driver) where
  unfoldable pub recheck : Connection → (now later : ℕ) → Pass
  unfolding health_tick
  recheck c now later = complete c (health_tick d c.spec c.topology now later)

  unfoldable pub rediscover : Objects → Connection → (random now later : ℕ) → Pass
  unfolding refresh_topology
  rediscover py c random now later =
      let (t, answer) = refresh_topology d py c.spec c.topology random now later in
      elim answer [ err e ↦ (record c { topology = t }, err e) | ok _ ↦ complete c t ]

  unfoldable pub refresh : Objects → Connection → (random now later : ℕ) → Pass
  unfolding health_tick rediscover
  refresh py c random now later =
      let checked = record c { topology = health_tick d c.spec c.topology now later } in
      rediscover py checked random later later

unfoldable pub close_connection : Connection → Connection
unfolding close_all
close_connection c = record c { topology = close_all c.topology }
