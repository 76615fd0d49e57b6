-- ===== src/Cluster/Connection/Queried.antt =====
-- A whole query keeps the pool well-formed (src/promch/clickhouse/connection.py).
use prometheus_ch_exporter.Prelude.{
  ℕ, some, String, ◌≡◌, refl, sym, ◌∙◌, ap, subst, List, [], ◌∷◌, arith, Bool-cases, inl, inr,
  nonempty, contains,
}
use prometheus_ch_exporter.Cells.{Row}
use prometheus_ch_exporter.Prelude.Result.{Result}
use prometheus_ch_exporter.Query.Execute.{RunError}
use prometheus_ch_exporter.Cluster.Node.{Driver, Node}
use prometheus_ch_exporter.Cluster.Topology.{ConnectionSpec, Topology, all_live, store}
use prometheus_ch_exporter.Cluster.Topology.Pool.{IsPool}
use prometheus_ch_exporter.Cluster.Connection.{
  Connection, gather, store_all, execute_system_query, execute_data_query,
}
use prometheus_ch_exporter.Cluster.Connection.Answers.{execute_data_query-outcome}
use prometheus_ch_exporter.Cluster.Connection.FanOut.{store_all-kept, get-store_all}

-- A query over a connection leaves this pool.
pub data Queried (d : Driver) (c : Connection) (t : Topology) : Type 0 where
  data_query :
      (random : ℕ → ℕ) (sql : String) (now fuel : ℕ) (answer : Result RunError (List Row))
      → execute_data_query d c.spec random sql now fuel c.topology ≡ some (t, answer)
      → Queried d c t
  system_query :
      (sql : String) (now : ℕ) (node_label : String)
      → (execute_system_query d c.spec sql now node_label c.topology).0 ≡ t
      → Queried d c t

store_all_seeds : (ms : List Node) (t : Topology) → (store_all t ms).seed_hosts ≡ t.seed_hosts
store_all_seeds [] t = refl
store_all_seeds (m ∷ ms) t = store_all_seeds ms (store t m)

store_all-IsPool : (t : Topology) (ms : List Node) → IsPool t → IsPool (store_all t ms)
store_all-IsPool t ms p =
    let kept = store_all-kept t ms p.unique p.keyed in
    record {
      unique = kept.0;
      keyed = kept.1;
      seeded = λ k s. ground (
        arith,
        get-store_all t ms k,
        p.seeded k (ap (λ hosts. contains hosts k) (sym (store_all_seeds ms t)) ∙ s),
      );
    }

system_query-IsPool :
    (d : Driver) (spec : ConnectionSpec) (sql : String) (now : ℕ) (node_label : String)
    (t : Topology)
    → IsPool t
    → IsPool (execute_system_query d spec sql now node_label t).0
unfolding execute_system_query
system_query-IsPool d spec sql now node_label t p = elim (Bool-cases (nonempty (all_live t))) [
  | inl some_live ↦ rw some_live (store_all-IsPool t (gather d sql now (all_live t)).0 p)
  | inr nobody ↦ rw nobody p
]

pub Queried-IsPool :
    (d : Driver) (c : Connection) (t : Topology) → IsPool c.topology → Queried d c t → IsPool t
Queried-IsPool d c t p (data_query random sql now fuel answer returns) =
    (execute_data_query-outcome d c.spec random sql now fuel c.topology t answer p returns).0
Queried-IsPool d c t p (system_query sql now node_label same) =
    subst IsPool same (system_query-IsPool d c.spec sql now node_label c.topology p)
