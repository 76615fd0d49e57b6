-- ===== src/Registry/Concurrency/Invariant.antt =====
-- What always holds of the registry of connections, and the lemmas on its parts
-- (src/promch/handlers/connection.py).
use prometheus_ch_exporter.Prelude.{
  ℕ, ◌<◌, String, ◌≡◌, refl, sym, true, false, ◌||◌, none, some, List, [], ◌∷◌, ◌++◌, arith,
  Bool-cases, inl, inr, ◌⊎◌,
}
use prometheus_ch_exporter.Dict.{get}
use prometheus_ch_exporter.Cluster.Node.{Node, close}
use prometheus_ch_exporter.Cluster.Topology.{Topology, close_all}
use prometheus_ch_exporter.Cluster.Topology.Pool.{IsPool, get-each_node, each_node-IsPool}
use prometheus_ch_exporter.Registry.{Registry}
use prometheus_ch_exporter.Registry.Concurrency.{has_id, IsDropped}
use prometheus_ch_exporter.Registry.Keyed.{
  Key, KeyDict, same_key, same_key-eq, find, set, drop, objects, find-set, find-drop,
}

-- No node of the pool has a client.
abbrev pub IsClosed : Topology → Type 0
IsClosed t = (host : String) (n : Node) → get t.nodes host ≡ some n → n.has_client ≡ false

-- A key has one connection and a connection one key; a connection that waits to be closed is not
-- registered, and one that is neither has no client, unless a query has gone on with it since.
pub record IsSound (r : Registry) (closing late : List ℕ) : Type 0 where
  pub known : (id : ℕ) → has_id (objects r.connections) id ≡ true → id < r.built
  pub single :
      (j k : Key) (id : ℕ) → find r.connections j ≡ some id → find r.connections k ≡ some id → j ≡ k
  pub pools : (id : ℕ) → id < r.built → IsPool (r.heap id).topology
  pub pending : (id : ℕ) → has_id closing id ≡ true → (id < r.built) × IsDropped r id
  pub clean :
      (id : ℕ)
      → id < r.built
      → IsDropped r id
      → has_id closing id ≡ false
      → has_id late id ≡ false
      → IsClosed (r.heap id).topology

pub has_id-append :
    (ids ids' : List ℕ) (id : ℕ) → has_id (ids ++ ids') id ≡ (has_id ids id || has_id ids' id)
has_id-append [] ids' id = refl
has_id-append (i ∷ ids) ids' id = ground (arith, has_id-append ids ids' id)

pub find-has_id :
    (d : KeyDict ℕ) (k : Key) (id : ℕ) → find d k ≡ some id → has_id (objects d) id ≡ true
unfolding find
find-has_id [] k id h = cc
find-has_id ((j, v) ∷ d) k id h = ground (arith, find-has_id d k id)

pub has_id-set :
    (d : KeyDict ℕ) (k : Key) (v id : ℕ)
    → has_id (objects (set d k v)) id ≡ true
    → (id ≡ v) ⊎ (has_id (objects d) id ≡ true)
unfolding set
has_id-set [] k v id h = ground arith
has_id-set ((j, w) ∷ d) k v id h = ground (arith, has_id-set d k v id)

pub has_id-drop :
    (d : KeyDict ℕ) (k : Key) (id : ℕ)
    → has_id (objects (drop d k)) id ≡ true
    → has_id (objects d) id ≡ true
unfolding drop
has_id-drop [] k id h = h
has_id-drop ((j, w) ∷ d) k id h = ground (arith, has_id-drop d k id)

pub find-drop-some :
    (d : KeyDict ℕ) (key k : Key) (id : ℕ) → find (drop d key) k ≡ some id → find d k ≡ some id
find-drop-some d key k id h = ground (arith, find-drop d key k)

pub set_cases :
    (d : KeyDict ℕ) (key : Key) (v : ℕ) (k : Key) (id : ℕ)
    → find (set d key v) k ≡ some id
    → ((k ≡ key) × (id ≡ v)) ⊎ (find d k ≡ some id)
set_cases d key v k id h = elim (Bool-cases (same_key key k)) [
  | inl same ↦ inl (sym (same_key-eq key k same), ground (arith, find-set d key v k))
  | inr other ↦ inr (ground (arith, find-set d key v k))
]

pub set_keeps :
    (d : KeyDict ℕ) (key : Key) (v : ℕ) (k : Key) (id : ℕ)
    → find d key ≡ none
    → find d k ≡ some id
    → find (set d key v) k ≡ some id
set_keeps d key v k id nobody h = ground (arith, find-set d key v k, same_key-eq key k)

pub close_all-IsClosed : (t : Topology) → IsClosed (close_all t)
unfolding close_all close
close_all-IsClosed t host n here = ground (arith, get-each_node close t.nodes host)

pub close_all-IsPool : (t : Topology) → IsPool t → IsPool (close_all t)
unfolding close_all close
close_all-IsPool t p = each_node-IsPool close t (λ n. refl) p
