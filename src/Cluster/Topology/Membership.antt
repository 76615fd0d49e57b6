-- ===== src/Cluster/Topology/Membership.antt =====
-- What a discovery makes of the pool (src/promch/clickhouse/topology.py, `refresh_topology`).
use mathlib.Core.Option
use prometheus_ch_exporter.Prelude.{
  ℕ, String, ◌≡◌, sym, ◌∙◌, Bool, true, ◌||◌, Option, none, some, List, [], ◌∷◌, arith, eq_iff,
  if◌then◌else◌, contains, inl, inr, Option-cases,
}
use prometheus_ch_exporter.Dict.{Dict, get, put, has, IsUnique}
use prometheus_ch_exporter.Dict.Laws.{get-put, put-IsUnique}
use prometheus_ch_exporter.Cluster.Node.{Driver, Node, new_node, ping}
use prometheus_ch_exporter.Cluster.Node.Health.{ping-health}
use prometheus_ch_exporter.Cluster.Topology.{Topology, add_members, reconcile, apply_members, store}
use prometheus_ch_exporter.Cluster.Topology.Pool.{IsPool, ping_returns}

-- The node with its membership set.
abbrev pub as_member : Bool → Node → Node
as_member member n = record n { in_cluster = member }

get-reconcile :
    (members seeds : List String) (nodes : Dict Node) (k : String)
    → get (reconcile members seeds nodes) k ≡ (
        if contains members k || contains seeds k
        then Option.map (as_member (contains members k)) (get nodes k)
        else none)
unfolding reconcile get
get-reconcile members seeds [] k = ground arith
get-reconcile members seeds ((j, n) ∷ nodes) k =
    ground (arith, get-reconcile members seeds nodes k, eq_iff j k)

reconcile-IsUnique :
    (members seeds : List String) (nodes : Dict Node)
    → IsUnique nodes
    → IsUnique (reconcile members seeds nodes)
unfolding reconcile
reconcile-IsUnique members seeds [] u = tt
reconcile-IsUnique members seeds ((j, n) ∷ nodes) u =
    ground (arith, get-reconcile members seeds nodes j, reconcile-IsUnique members seeds nodes u.1)

module _ (d : Driver) where
  -- A member that the pool does not know yet, once it has been pinged.
  abbrev pub new_member : String → (now : ℕ) → Node
  new_member host now = (ping d (as_member true (new_node host now)) now).0

  get-add_members :
      (nodes : Dict Node) (members : List String) (now : ℕ) (k : String)
      → get (add_members d nodes members now) k ≡ (
          if has nodes k
          then get nodes k
          else if contains members k
          then some (new_member k now)
          else none)
  unfolding add_members
  get-add_members nodes [] now k = ground arith
  get-add_members nodes (host ∷ hosts) now k =
      get-add_members (if has nodes host then nodes else put nodes host (new_member host now)) hosts
        now k
      ∙ ground (arith, get-put nodes host (new_member host now) k, eq_iff host k)

  add_members-IsUnique :
      (nodes : Dict Node) (members : List String) (now : ℕ)
      → IsUnique nodes
      → IsUnique (add_members d nodes members now)
  unfolding add_members
  add_members-IsUnique nodes [] now u = u
  add_members-IsUnique nodes (host ∷ hosts) now u =
      add_members-IsUnique (if has nodes host then nodes else put nodes host (new_member host now))
        hosts now (ground (arith, put-IsUnique nodes host (new_member host now)))

  new_member-face :
      (k : String) (now : ℕ)
      → ((new_member k now).host ≡ k)
        × ((new_member k now).in_cluster ≡ true)
        × ((new_member k now).alive ≡ ping_returns d (new_node k now) now)
  new_member-face k now = ground (arith, ping-health d (as_member true (new_node k now)) now)

  -- The node of a host after a discovery that answered `members`.
  abbrev pub discovered : Topology → List String → ℕ → String → Option Node
  discovered t members now k =
      if contains members k || contains t.seed_hosts k
      then elim (get t.nodes k) [
        | none ↦ some (new_member k now)
        | some n ↦ some (as_member (contains members k) n)
      ]
      else none

  get-apply_members :
      (t : Topology) (members : List String) (now : ℕ) (k : String)
      → IsPool t
      → get (apply_members d t members now).nodes k ≡ discovered t members now k
  unfolding apply_members
  get-apply_members t members now k p =
      get-reconcile members t.seed_hosts (add_members d t.nodes members now) k
      ∙ ground (arith, get-add_members t.nodes members now k, new_member-face k now, p.seeded k)

  pub apply_members-IsPool :
      (t : Topology) (members : List String) (now : ℕ)
      → IsPool t
      → IsPool (apply_members d t members now)
  unfolding apply_members
  apply_members-IsPool t members now p = record {
    unique =
        reconcile-IsUnique members t.seed_hosts (add_members d t.nodes members now)
          (add_members-IsUnique t.nodes members now p.unique);
    keyed = λ k n here.
        let there : discovered t members now k ≡ some n =
          sym (get-apply_members t members now k p) ∙ here in
        elim (Option-cases (get t.nodes k)) [
          | inl unknown ↦ ground (arith, new_member-face k now)
          | inr (m, known) ↦
              let kept : as_member (contains members k) m ≡ n = ground arith in
              rw (← kept) (p.keyed k m known)
        ];
    seeded = λ k s. ground (arith, get-apply_members t members now k p);
  }

  -- What holds of the host `k` in the pool `t'` that a discovery of `members` makes of `t`.
  abbrev pub Discovered : (t t' : Topology) (members : List String) (now : ℕ) (k : String) → Type 0
  Discovered t t' members now k =
      IsPool t'
      × (has t'.nodes k ≡ (contains members k || contains t.seed_hosts k))
      × ((n : Node)
          → get t'.nodes k ≡ some n
          → (n.host ≡ k)
            × (n.in_cluster ≡ contains members k)
            × ((m : Node) → get t.nodes k ≡ some m → n ≡ as_member (contains members k) m)
            × (get t.nodes k ≡ none → n.alive ≡ ping_returns d (new_node k now) now))

  pub apply_members-discovers :
      (t : Topology) (members : List String) (now : ℕ) (k : String)
      → IsPool t
      → Discovered t (apply_members d t members now) members now k
  apply_members-discovers t members now k p = (
    apply_members-IsPool t members now p,
    ground (arith, get-apply_members t members now k p, p.seeded k),
    λ n here.
        let there : discovered t members now k ≡ some n =
          sym (get-apply_members t members now k p) ∙ here in
        (
          (apply_members-IsPool t members now p).keyed k n here,
          ground (arith, new_member-face k now, p.seeded k),
          λ m known. ground arith,
          λ unknown. ground (arith, new_member-face k now),
        ),
  )

pub store-IsPool :
    (t : Topology) (n n' : Node)
    → IsPool t
    → get t.nodes n.host ≡ some n
    → n'.host ≡ n.host
    → IsPool (store t n')
store-IsPool t n n' p here same = record {
  unique = put-IsUnique t.nodes n'.host n' p.unique;
  keyed = λ k m h. ground (arith, get-put t.nodes n'.host n' k, eq_iff n'.host k, p.keyed k m);
  seeded = λ k s. ground (arith, get-put t.nodes n'.host n' k, p.seeded k);
}
