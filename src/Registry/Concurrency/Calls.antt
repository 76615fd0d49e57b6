-- ===== src/Registry/Concurrency/Calls.antt =====
-- The calls of queries on nodes keep what always holds of the registry (src/promch/clickhouse/node.py).
use prometheus_ch_exporter.Prelude.{
  ℕ, ◌<◌, ◌≡◌, refl, sym, subst, true, String, some, List, ◌∷◌, arith, nat_eq, Bool-cases, inl, inr,
  ◌⊎◌,
}
use prometheus_ch_exporter.Cluster.Topology.{Topology, store}
use prometheus_ch_exporter.Cluster.Topology.Membership.{store-IsPool}
use prometheus_ch_exporter.Cluster.Node.{
  Driver, Node, ensure_client, receive, DriverError, ResultSet, operational, database, transport,
  unexpected,
}
use prometheus_ch_exporter.Prelude.Result.{Result, ok, err}
use prometheus_ch_exporter.Dict.{get}
use prometheus_ch_exporter.Cluster.Topology.Pool.{IsPool}
use prometheus_ch_exporter.Registry.{Registry, change}
use prometheus_ch_exporter.Registry.Keyed.{Key, find}
use prometheus_ch_exporter.Registry.Concurrency.Invariant.{IsSound}
use prometheus_ch_exporter.Registry.Concurrency.{has_id, Called, asked, received, with_node}
use prometheus_ch_exporter.Registry.Concurrency.Changes.{known_key, change-IsSound}

receive-host :
    (d : Driver) (n : Node) (now : ℕ) (answer : Result DriverError ResultSet)
    → (receive d n now answer).0.host ≡ n.host
unfolding receive
receive-host d n now (ok r) = refl
receive-host d n now (err (operational m)) = refl
receive-host d n now (err (database m)) = refl
receive-host d n now (err (unexpected m)) = refl
receive-host d n now (err (transport m)) = refl

Called-host : (d : Driver) (n n' : Node) → Called d n n' → n'.host ≡ n.host
unfolding ensure_client
Called-host d n n' (asked now e) = rw e (ground arith)
Called-host d n n' (received now answer e) = rw e (receive-host d n now answer)

called-IsPool :
    (d : Driver) (t : Topology) (host : String) (n n' : Node)
    → IsPool t
    → get t.nodes host ≡ some n
    → Called d n n'
    → IsPool (store t n')
called-IsPool d t host n n' p chosen call =
    store-IsPool t n n' p (subst (λ k. get t.nodes k ≡ some n) (sym (p.keyed host n chosen)) chosen)
      (Called-host d n n' call)

module _ (r : Registry) (closing late : List ℕ) (i : IsSound r closing late) where
  -- A call of a query on a node, before the connection is dropped and closed.
  pub call-IsSound :
      (d : Driver) (id : ℕ) (host : String) (n n' : Node)
      → ((key : Key) × (find r.connections key ≡ some id)) ⊎ (has_id closing id ≡ true)
      → get (r.heap id).topology.nodes host ≡ some n
      → Called d n n'
      → IsSound (with_node r id n') closing late
  unfolding change
  call-IsSound d id host n n' (inl (key, there)) chosen call =
      change-IsSound r closing late i key id _ there (
        called-IsPool d (r.heap id).topology host n n'
          (i.pools id (known_key r closing late i key id there)) chosen call)
  call-IsSound d id host n n' (inr waits) chosen call = record {
    known = i.known;
    single = i.single;
    pools = λ j below. elim (Bool-cases (nat_eq j id)) [
      | inl same ↦ rw same (
          called-IsPool d (r.heap id).topology host n n' (i.pools id (i.pending id waits).0) chosen
            call)
      | inr other ↦ rw other (i.pools j below)
    ];
    pending = i.pending;
    clean = λ j below dropped out timely. elim (Bool-cases (nat_eq j id)) [
      | inl same ↦ λ k m g. ground (arith, same, waits, out)
      | inr other ↦ rw other (i.clean j below dropped out timely)
    ];
  }

  -- A call of a query on a node of a connection that is dropped and closed.
  pub late_call-IsSound :
      (d : Driver) (id : ℕ) (host : String) (n n' : Node)
      → id < r.built
      → get (r.heap id).topology.nodes host ≡ some n
      → Called d n n'
      → IsSound (with_node r id n') closing (id ∷ late)
  unfolding change
  late_call-IsSound d id host n n' known chosen call = record {
    known = i.known;
    single = i.single;
    pools = λ j below. elim (Bool-cases (nat_eq j id)) [
      | inl same ↦
          rw same (called-IsPool d (r.heap id).topology host n n' (i.pools id known) chosen call)
      | inr other ↦ rw other (i.pools j below)
    ];
    pending = i.pending;
    clean = λ j below dropped out timely. elim (Bool-cases (nat_eq j id)) [
      | inl same ↦ λ k m g. ground (arith, same, timely)
      | inr other ↦ rw other (i.clean j below dropped out (ground (arith, timely)))
    ];
  }
