-- ===== src/Cluster/Topology.antt =====
-- src/promch/clickhouse/topology.py: the pool of nodes by their host. A pass that pings in parallel
-- gives each node its answers at one time, since a ping touches its own node only. The order in
-- which a set of new members is visited is that of their first rows.
pub mod Pool
pub mod Membership
use prometheus_ch_exporter.Prelude.{
  ℕ, zero, suc, ◌+◌, ◌%◌, String, ◌≡◌, Bool, true, false, not, ◌&&◌, Option, none, some, List, [],
  ◌∷◌, ◌++◌, map, ◌==◌, if◌then◌else◌, keep_if, contains, length,
}
use prometheus_ch_exporter.Prelude.Result.{Result, ok, err}
use prometheus_ch_exporter.Dict.{Dict, get, put, remove, keys, values, has}
use prometheus_ch_exporter.Cells.{Cell, Row, Objects, str_cell, equals_text}
use prometheus_ch_exporter.Cluster.Node.{
  connection_error, query_error, escaped, Driver, NodeError, Node, new_node, query, ping, is_idle,
  close,
}

-- `max_failovers` of None tries all live nodes. The username and the password are their code points,
-- and the durations are microseconds.
pub record ConnectionSpec : Type 0 where
  pub seed_hosts : List String
  pub cluster_name : String
  pub port : ℕ
  pub username : List ℕ
  pub password : List ℕ
  pub secure : Bool
  pub verify : Bool
  pub connect_timeout : ℕ
  pub max_failovers : Option ℕ
  pub system_query_retries : ℕ
  pub liveness_mode : String
  pub recheck_interval : ℕ
  pub topology_interval : ℕ
  pub idle_ttl : ℕ

-- `liveness_mode == "passive"`
abbrev pub is_passive : ConnectionSpec → Bool
is_passive spec = spec.liveness_mode == "passive"

pub record Topology : Type 0 where
  pub nodes : Dict Node
  pub seed_hosts : List String
  pub last_discovery : Option ℕ

-- The loop of `__init__`: a repeated seed is skipped.
unfoldable pub add_seeds : Dict Node → List String → (now : ℕ) → Dict Node
add_seeds nodes [] now = nodes
add_seeds nodes (host ∷ hosts) now =
    add_seeds (if has nodes host then nodes else put nodes host (new_node host now)) hosts now

unfoldable pub new_topology : ConnectionSpec → (now : ℕ) → Topology
unfolding add_seeds
new_topology spec now =
    let nodes = add_seeds [] spec.seed_hosts now in
    record { nodes = nodes; seed_hosts = keys nodes; last_discovery = none }

unfoldable pub all_nodes : Topology → List Node
all_nodes t = values t.nodes

unfoldable pub all_live : Topology → List Node
all_live t = keep_if (λ n. n.alive) (values t.nodes)

-- `candidates[i % len(candidates)]`, for the random number `i`.
unfoldable pub nth_from : Node → List Node → ℕ → Node
nth_from n [] i = n
nth_from n (m ∷ ms) zero = n
nth_from n (m ∷ ms) (suc i) = nth_from m ms i

-- `rng.choice`: some element, which the random number selects.
unfoldable pub choice : List Node → (random : ℕ) → Option Node
unfolding nth_from
choice [] random = none
choice (n ∷ ns) random = some (nth_from n ns (random % length (n ∷ ns)))

unfoldable pub candidates : Topology → (exclude : List String) → List Node
candidates t exclude = keep_if (λ n. n.alive && not (contains exclude n.host)) (values t.nodes)

unfoldable pub pick_one_live : Topology → (exclude : List String) → (random : ℕ) → Option Node
unfolding candidates choice
pick_one_live t exclude random = choice (candidates t exclude) random

-- Changes every node of the pool in place.
abbrev pub each_node : (Node → Node) → Dict Node → Dict Node
each_node f = map λ e. (e.0, f e.1)

-- A node that an operation changed is the object that the pool holds.
abbrev pub store : Topology → Node → Topology
store t n = record t { nodes = put t.nodes n.host n }

module _ (d : Driver) where
  -- `recheck_dead`: pings what is down, then closes the clients of live nodes that are idle.
  abbrev pub recheck_node : (ttl now later : ℕ) → Node → Node
  recheck_node ttl now later n =
      let n' = if n.alive then n else (ping d n now).0 in
      if n'.alive && is_idle n' ttl later then close n' else n'

  unfoldable pub recheck_dead : Topology → (ttl now later : ℕ) → Topology
  unfolding ping is_idle close
  recheck_dead t ttl now later = record t { nodes = each_node (recheck_node ttl now later) t.nodes }

  unfoldable pub check_all : Topology → (now : ℕ) → Topology
  unfolding ping
  check_all t now = record t { nodes = each_node (λ n. (ping d n now).0) t.nodes }

  unfoldable pub health_tick : ConnectionSpec → Topology → (now later : ℕ) → Topology
  unfolding recheck_dead check_all
  health_tick spec t now later =
      if is_passive spec then recheck_dead t spec.idle_ttl now later else check_all t now

abbrev pub discovery_sql : String
discovery_sql = "SELECT cluster, host_name FROM system.clusters"

-- `str(r["host_name"])` of the rows of the cluster; none is the KeyError of a row without a host.
unfoldable pub members_of : Objects → (cluster_name : String) → List Row → Option (List String)
members_of py cluster_name [] = some []
members_of py cluster_name (r ∷ rs) =
    let rest = members_of py cluster_name rs in
    elim (get r "cluster") [
      | none ↦ rest
      | some c ↦
          if equals_text c cluster_name
          then elim (get r "host_name") [
            | none ↦ none
            | some h ↦ elim rest [ none ↦ none | some hosts ↦ some (str_cell py h ∷ hosts) ]
          ]
          else rest
    ]

-- New members come into the pool as members, and are pinged at once.
unfoldable pub add_members : Driver → Dict Node → (members : List String) → (now : ℕ) → Dict Node
unfolding ping
add_members d nodes [] now = nodes
add_members d nodes (host ∷ hosts) now =
    add_members d
      (if has nodes host
        then nodes
        else put nodes host (ping d (record (new_node host now) { in_cluster = true }) now).0)
      hosts now

-- The nodes that are tracked: members, seeds that are none, and what leaves the pool.
unfoldable pub reconcile : (members seeds : List String) → Dict Node → Dict Node
reconcile members seeds [] = []
reconcile members seeds ((host, n) ∷ nodes) =
    let rest = reconcile members seeds nodes in
    if contains members host
    then (host, record n { in_cluster = true }) ∷ rest
    else if contains seeds host
    then (host, record n { in_cluster = false }) ∷ rest
    else rest

-- What the pool makes of an answer of the seed.
unfoldable pub apply_members : Driver → Topology → (members : List String) → (now : ℕ) → Topology
unfolding add_members reconcile
apply_members d t members now = record t {
  nodes = reconcile members t.seed_hosts (add_members d t.nodes members now);
  last_discovery = some now;
}

-- The error is the KeyError, or an exception of the driver that no handler names; both leave this
-- function.
unfoldable pub refresh_topology :
    Driver
    → Objects
    → ConnectionSpec
    → Topology
    → (random now later : ℕ) → Topology × Result String (Unit {0})
unfolding pick_one_live query members_of apply_members
refresh_topology d py spec t random now later = elim (pick_one_live t [] random) [
  | none ↦ (t, ok tt)
  | some seed ↦
      let (seed', answer) = query d seed discovery_sql now in
      let t' = store t seed' in
      elim answer [
        | err (connection_error message) ↦ (t', ok tt)
        | err (query_error message) ↦ (t', ok tt)
        | err (escaped message) ↦ (t', err message)
        | ok rows ↦ elim (members_of py spec.cluster_name rows) [
          | none ↦ (t', err "host_name")
          | some members ↦ (apply_members d t' members later, ok tt)
        ]
      ]
]

unfoldable pub close_all : Topology → Topology
unfolding close
close_all t = record t { nodes = each_node close t.nodes }
