-- ===== src/Cluster/Snapshot.antt =====
-- What src/promch/clickhouse/connection.py reports of its pool: `member_hosts` and
-- `status_snapshot`.
use prometheus_ch_exporter.Prelude.{
  ℕ, suc, String, Option, List, [], ◌∷◌, map, nat_eq, if◌then◌else◌, keep_if, length, nonempty,
}
use prometheus_ch_exporter.Prelude.Sorting.{sorted_set}
use prometheus_ch_exporter.Cluster.Node.{Node}
use prometheus_ch_exporter.Cluster.Topology.{Topology, all_nodes}

abbrev pub hosts_of : List Node → List String
hosts_of = map λ n. n.host

-- `member_hosts`: a pool has each host once.
unfoldable pub member_hosts : Topology → List String
unfolding all_nodes sorted_set
member_hosts t =
    let members = hosts_of (keep_if (λ n. n.in_cluster) (all_nodes t)) in
    sorted_set (if nonempty members then members else hosts_of (all_nodes t))

pub data ConnectionPhase : Type 0 where
  down healthy degraded : ConnectionPhase

unfoldable pub count_alive : List Node → ℕ
count_alive [] = 0
count_alive (n ∷ ns) = let rest = count_alive ns in if n.alive then suc rest else rest

pub record ConnectionStatus : Type 0 where
  pub phase : ConnectionPhase
  pub total_nodes : ℕ
  pub alive_nodes : ℕ
  pub last_discovery : Option ℕ
  pub nodes : List Node

unfoldable pub status_snapshot : Topology → ConnectionStatus
unfolding all_nodes count_alive
status_snapshot t =
    let nodes = all_nodes t in
    let alive = count_alive nodes in
    record {
      phase =
          if nat_eq alive 0
          then down
          else if nat_eq alive (length nodes)
          then healthy
          else degraded;
      total_nodes = length nodes;
      alive_nodes = alive;
      last_discovery = t.last_discovery;
      nodes = nodes;
    }
