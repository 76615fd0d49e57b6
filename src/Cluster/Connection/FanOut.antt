-- ===== src/Cluster/Connection/FanOut.antt =====
-- Lists of the nodes of a pool, by their hosts, and what the fan-out of a system query leaves in it
-- (src/promch/clickhouse/connection.py, `execute_system_query`).
pub mod Account
pub mod Rows
use mathlib.Core.Option
use prometheus_ch_exporter.Prelude.{
  ℕ, String, ◌≡◌, refl, sym, ◌∙◌, ap, Bool, true, false, not, ◌&&◌, ◌||◌, Option, none, some, List,
  [], ◌∷◌, map, arith, ◌==◌, eq_iff, eq_refl, if◌then◌else◌, contains, is_some, inl, inr,
  Option-cases, Bool-cases, keep_if,
}
use prometheus_ch_exporter.Dict.{Dict, get, put, values, IsUnique}
use prometheus_ch_exporter.Dict.Laws.{get-put, put-IsUnique}
use prometheus_ch_exporter.Cluster.Node.{Node}
use prometheus_ch_exporter.Cluster.Topology.{Topology, store}
use prometheus_ch_exporter.Cluster.Connection.{store_all}
use prometheus_ch_exporter.Cluster.Snapshot.{hosts_of}

-- Each node stands under its host.
abbrev pub IsKeyed : Dict Node → Type 0
IsKeyed nodes = (k : String) (n : Node) → get nodes k ≡ some n → n.host ≡ k

abbrev pub test : (Node → Bool) → Option Node → Bool
test p none = false
test p (some n) = p n

tail-IsKeyed :
    (j : String) (n : Node) (nodes : Dict Node)
    → IsUnique ((j, n) ∷ nodes)
    → IsKeyed ((j, n) ∷ nodes)
    → IsKeyed nodes
unfolding get
tail-IsKeyed j n nodes u keyed k m here = keyed k m (ground (arith, u.0, eq_iff j k))

head-IsKeyed : (j : String) (n : Node) (nodes : Dict Node) → IsKeyed ((j, n) ∷ nodes) → n.host ≡ j
unfolding get
head-IsKeyed j n nodes keyed = keyed j n (ground (arith, eq_refl j))

-- A host is listed exactly if its node passes.
pub contains-hosts_of :
    (p : Node → Bool) (nodes : Dict Node) (k : String)
    → IsUnique nodes
    → IsKeyed nodes
    → contains (hosts_of (keep_if p (values nodes))) k ≡ test p (get nodes k)
unfolding get
contains-hosts_of p [] k u keyed = refl
contains-hosts_of p ((j, n) ∷ nodes) k u keyed = ground (
  arith,
  contains-hosts_of p nodes k u.1 (tail-IsKeyed j n nodes u keyed),
  head-IsKeyed j n nodes keyed,
  eq_iff j k,
  u.0,
)

-- The last node of a host in a list.
abbrev pub last_of : List Node → String → Option Node
last_of [] k = none
last_of (m ∷ ms) k =
    let later = last_of ms k in
    if is_some later then later else if m.host == k then some m else none

pub get-store_all :
    (t : Topology) (ms : List Node) (k : String)
    → get (store_all t ms).nodes k
      ≡ (if is_some (last_of ms k) then last_of ms k else get t.nodes k)
get-store_all t [] k = refl
get-store_all t (m ∷ ms) k =
    get-store_all (store t m) ms k ∙ ground (arith, get-put t.nodes m.host m k, eq_iff m.host k)

pub store_all-kept :
    (t : Topology) (ms : List Node)
    → IsUnique t.nodes
    → IsKeyed t.nodes
    → IsUnique (store_all t ms).nodes
      × IsKeyed (store_all t ms).nodes
      × ((store_all t ms).last_discovery ≡ t.last_discovery)
store_all-kept t [] u keyed = (u, keyed, refl)
store_all-kept t (m ∷ ms) u keyed =
    store_all-kept (store t m) ms (put-IsUnique t.nodes m.host m u)
      (λ k n here. ground (arith, get-put t.nodes m.host m k, eq_iff m.host k, keyed k n))

-- The nodes that pass, each changed by `f`, which renames none.
pub last_of-map :
    (f : Node → Node) (p : Node → Bool) (nodes : Dict Node) (k : String)
    → ((n : Node) → (f n).host ≡ n.host)
    → IsUnique nodes
    → IsKeyed nodes
    → last_of (map f (keep_if p (values nodes))) k
      ≡ (if test p (get nodes k) then Option.map f (get nodes k) else none)
unfolding get
last_of-map f p [] k same u keyed = refl
last_of-map f p ((j, n) ∷ nodes) k same u keyed = ground (
  arith,
  last_of-map f p nodes k same u.1 (tail-IsKeyed j n nodes u keyed),
  head-IsKeyed j n nodes keyed,
  same n,
  eq_iff j k,
  u.0,
)
