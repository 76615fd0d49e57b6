-- ===== src/Cluster/Connection/Phase.antt =====
-- The phase of a connection's status (src/promch/clickhouse/connection.py, `status_snapshot`).
use prometheus_ch_exporter.Prelude.{
  ◌≤◌, ◌≡◌, not, List, [], ◌∷◌, arith, if◌then◌else◌, length, any_of, keep_if, nat_eq,
}
use prometheus_ch_exporter.Cluster.Node.{Node}
use prometheus_ch_exporter.Cluster.Topology.{Topology, all_live, all_nodes}
use prometheus_ch_exporter.Cluster.Snapshot.{down, healthy, degraded, count_alive, status_snapshot}

-- What `count_alive` counts.
count_alive_lem :
    (ns : List Node)
    → (count_alive ns ≡ length (keep_if (λ n. n.alive) ns))
      × (count_alive ns ≤ length ns)
      × (nat_eq (count_alive ns) 0 ≡ not (any_of (λ n. n.alive) ns))
      × (nat_eq (count_alive ns) (length ns) ≡ not (any_of (λ n. not n.alive) ns))
unfolding count_alive
count_alive_lem [] = ground arith
count_alive_lem (n ∷ ns) = ground (arith, count_alive_lem ns)

-- A connection is reported down exactly if no node is alive, which includes an empty pool, healthy
-- exactly if some node is alive and none is down, and degraded otherwise. The number of live nodes
-- that it reports is that of the nodes a query may go to, and is at most the total.
pub phase_of_pool :
    (t : Topology)
    → let s = status_snapshot t in
      (s.phase ≡ (
        if not (any_of (λ n. n.alive) (all_nodes t))
        then down
        else if not (any_of (λ n. not n.alive) (all_nodes t))
        then healthy
        else degraded))
      × (s.alive_nodes ≡ length (all_live t))
      × (s.alive_nodes ≤ s.total_nodes)
      × (s.total_nodes ≡ length (all_nodes t))
unfolding status_snapshot all_live
phase_of_pool t = ground (arith, count_alive_lem (all_nodes t))
