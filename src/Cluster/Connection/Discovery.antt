-- ===== src/Cluster/Connection/Discovery.antt =====
-- A discovery through a live node (src/promch/clickhouse/topology.py, `refresh`).
use prometheus_ch_exporter.Prelude.{ℕ, String, ◌≡◌, some, List, []}
use prometheus_ch_exporter.Prelude.Result.{ok}
use prometheus_ch_exporter.Cells.{Row, Objects}
use prometheus_ch_exporter.Cluster.Node.{Driver, Node, query}
use prometheus_ch_exporter.Cluster.Node.Health.{query-health}
use prometheus_ch_exporter.Cluster.Topology.{
  ConnectionSpec, Topology, pick_one_live, store, members_of, refresh_topology, discovery_sql,
}
use prometheus_ch_exporter.Cluster.Topology.Pool.{IsPool}
use prometheus_ch_exporter.Cluster.Topology.Membership.{
  Discovered, apply_members-discovers, store-IsPool,
}
use prometheus_ch_exporter.Cluster.Connection.Pick.{pick_one_live-some}

-- A discovery whose seed answers rows that all have a host makes the pool anew, from the pool with
-- the seed's new health. It holds the members that the rows list for the cluster and the declared
-- seeds, and no other host. A host is marked as a member exactly if it is one. A node that was there
-- keeps its health, and a new member is alive exactly if a client can be made for it and its first
-- ping returns, be it True or False.
pub refresh_topology-discovers :
    (d : Driver) (py : Objects) (spec : ConnectionSpec) (t : Topology) (random now later : ℕ)
    (seed : Node) (rows : List Row) (members : List String) (k : String)
    → IsPool t
    → pick_one_live t [] random ≡ some seed
    → (query d seed discovery_sql now).1 ≡ ok rows
    → members_of py spec.cluster_name rows ≡ some members
    → Discovered d
        (store t (query d seed discovery_sql now).0)
        (refresh_topology d py spec t random now later).0
        members
        later
        k
unfolding refresh_topology
refresh_topology-discovers d py spec t random now later seed rows members k p picked answered
      listed =
    rw (picked, answered, listed, refresh_topology)
      (apply_members-discovers d (store t (query d seed discovery_sql now).0) members later k (
        store-IsPool t seed (query d seed discovery_sql now).0 p
          (pick_one_live-some t [] random seed p picked).0
          (query-health d seed discovery_sql now).0.0))
