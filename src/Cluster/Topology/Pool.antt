-- ===== src/Cluster/Topology/Pool.antt =====
-- The well-formedness of the pool of nodes (src/promch/clickhouse/topology.py).
use mathlib.Core.Option
use prometheus_ch_exporter.Prelude.{
  ℕ, String, ◌≡◌, refl, sym, ◌∙◌, ap, Bool, true, not, ◌&&◌, none, some, List, [], ◌∷◌, arith,
  eq_iff, if◌then◌else◌, contains, inl, inr, Option-cases, Bool-cases,
}
use prometheus_ch_exporter.Prelude.Result.{is_err}
use prometheus_ch_exporter.Dict.{Dict, get, put, has, IsUnique}
use prometheus_ch_exporter.Dict.Laws.{get-put, put-IsUnique, contains-keys-has}
use prometheus_ch_exporter.Cluster.Node.{Driver, Node, new_node, ping, is_idle, close}
use prometheus_ch_exporter.Cluster.Node.Health.{connects, ping-health}
use prometheus_ch_exporter.Cluster.Topology.{
  ConnectionSpec, is_passive, Topology, add_seeds, new_topology, each_node, recheck_node,
  health_tick,
}

pub get-each_node :
    (f : Node → Node) (nodes : Dict Node) (k : String)
    → get (each_node f nodes) k ≡ Option.map f (get nodes k)
unfolding get
get-each_node f [] k = refl
get-each_node f ((j, n) ∷ nodes) k = ground (arith, get-each_node f nodes k)

each_node-IsUnique :
    (f : Node → Node) (nodes : Dict Node) → IsUnique nodes → IsUnique (each_node f nodes)
each_node-IsUnique f [] u = tt
each_node-IsUnique f ((j, n) ∷ nodes) u =
    (get-each_node f nodes j ∙ rw u.0, each_node-IsUnique f nodes u.1)

-- A host has one node, which is a node of that host, and every seed is in the pool.
pub record IsPool (t : Topology) : Type 0 where
  pub unique : IsUnique t.nodes
  pub keyed : (k : String) (n : Node) → get t.nodes k ≡ some n → n.host ≡ k
  pub seeded : (k : String) → contains t.seed_hosts k ≡ true → has t.nodes k ≡ true

-- A change of the nodes in place, which renames none.
pub each_node-IsPool :
    (f : Node → Node) (t : Topology)
    → ((n : Node) → (f n).host ≡ n.host)
    → IsPool t
    → IsPool (record t { nodes = each_node f t.nodes })
each_node-IsPool f t same p = record {
  unique = each_node-IsUnique f t.nodes p.unique;
  keyed = λ k n here. elim (Option-cases (get t.nodes k)) [
    | inl missing ↦ ground (arith, get-each_node f t.nodes k)
    | inr (m, there) ↦
        let changed : f m ≡ n = ground (arith, get-each_node f t.nodes k) in
        rw (← changed) (same m ∙ p.keyed k m there)
  ];
  seeded = λ k s. ground (arith, p.seeded k, get-each_node f t.nodes k);
}

add_seeds-IsUnique :
    (nodes : Dict Node) (hosts : List String) (now : ℕ)
    → IsUnique nodes
    → IsUnique (add_seeds nodes hosts now)
unfolding add_seeds
add_seeds-IsUnique nodes [] now u = u
add_seeds-IsUnique nodes (host ∷ hosts) now u =
    add_seeds-IsUnique (if has nodes host then nodes else put nodes host (new_node host now)) hosts
      now (ground (arith, put-IsUnique nodes host (new_node host now)))

get-add_seeds :
    (nodes : Dict Node) (hosts : List String) (now : ℕ) (k : String)
    → get (add_seeds nodes hosts now) k ≡ (
        if has nodes k
        then get nodes k
        else if contains hosts k
        then some (new_node k now)
        else none)
unfolding add_seeds
get-add_seeds nodes [] now k = ground arith
get-add_seeds nodes (host ∷ hosts) now k =
    get-add_seeds (if has nodes host then nodes else put nodes host (new_node host now)) hosts now k
    ∙ ground (arith, get-put nodes host (new_node host now) k, eq_iff host k)

-- The pool that a connection starts with: one node for each distinct seed, all down and none a
-- member yet.
pub new_topology-IsPool :
    (spec : ConnectionSpec) (now : ℕ)
    → IsPool (new_topology spec now)
      × ((k : String)
          → get (new_topology spec now).nodes k
            ≡ (if contains spec.seed_hosts k then some (new_node k now) else none))
unfolding new_topology
new_topology-IsPool spec now = (
  record {
    unique = add_seeds-IsUnique [] spec.seed_hosts now tt;
    keyed = λ k n here. unfold get in ground (arith, get-add_seeds [] spec.seed_hosts now k);
    seeded = λ k s. sym (contains-keys-has (add_seeds [] spec.seed_hosts now) k) ∙ s;
  },
  λ k. unfold get in get-add_seeds [] spec.seed_hosts now k,
)

-- What a liveness pass makes of one node.
tick_node : Driver → ConnectionSpec → (now later : ℕ) → Node → Node
tick_node d spec now later n =
    if is_passive spec then recheck_node d spec.idle_ttl now later n else (ping d n now).0

tick_node-same :
    (d : Driver) (spec : ConnectionSpec) (now later : ℕ) (n : Node)
    → ((tick_node d spec now later n).host ≡ n.host)
      × ((tick_node d spec now later n).in_cluster ≡ n.in_cluster)
unfolding tick_node is_idle close
tick_node-same d spec now later n = ground (arith, ping-health d n now)

health_tick_lem :
    (d : Driver) (spec : ConnectionSpec) (t : Topology) (now later : ℕ)
    → health_tick d spec t now later
      ≡ record t { nodes = each_node (tick_node d spec now later) t.nodes }
unfolding health_tick tick_node
health_tick_lem d spec t now later = elim (Bool-cases (is_passive spec)) [
  | inl passive ↦ rw passive
  | inr active ↦ rw active
]

-- A liveness pass, active or passive, keeps the pool: its hosts, their membership and its seeds.
pub health_tick-IsPool :
    (d : Driver) (spec : ConnectionSpec) (t : Topology) (now later : ℕ)
    → IsPool t
    → IsPool (health_tick d spec t now later)
health_tick-IsPool d spec t now later p =
    rw (health_tick_lem d spec t now later) (
      each_node-IsPool (tick_node d spec now later) t (λ n. (tick_node-same d spec now later n).0)
        p)

-- A client is there or can be made, and the call of its ping does not raise; it may answer False.
abbrev pub ping_returns : Driver → Node → ℕ → Bool
ping_returns d n now = connects d n now && not (is_err (d.ping n.host now))

-- What is seen of a node: its membership, and whether it is alive.
abbrev pub face : Node → Bool × Bool
face n = (n.in_cluster, n.alive)

abbrev pub expected_face : Driver → ConnectionSpec → ℕ → Node → Bool × Bool
expected_face d spec now n =
    (n.in_cluster, if is_passive spec && n.alive then true else ping_returns d n now)

tick_node-face :
    (d : Driver) (spec : ConnectionSpec) (now later : ℕ) (n : Node)
    → face (tick_node d spec now later n) ≡ expected_face d spec now n
unfolding tick_node is_idle close
tick_node-face d spec now later n = ground (arith, ping-health d n now)

-- What a liveness pass says of each host. In active mode a node is alive exactly if a client is there
-- or can be made and its ping returns, be it True or False. In passive mode so is a node that was down, and a node that was alive stays alive unasked. The
-- hosts and their membership stay.
pub health_tick-alive :
    (d : Driver) (spec : ConnectionSpec) (t : Topology) (now later : ℕ) (k : String)
    → Option.map face (get (health_tick d spec t now later).nodes k)
      ≡ Option.map (expected_face d spec now) (get t.nodes k)
health_tick-alive d spec t now later k =
    rw (health_tick_lem d spec t now later, get-each_node (tick_node d spec now later) t.nodes k)
      (elim (Option-cases (get t.nodes k)) [
        | inl missing ↦ rw missing refl
        | inr (n, here) ↦ rw here (ap some (tick_node-face d spec now later n))
      ])
