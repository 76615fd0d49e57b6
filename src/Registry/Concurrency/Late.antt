-- ===== src/Registry/Concurrency/Late.antt =====
-- A query that goes on with a connection after its close (src/promch/clickhouse/node.py, and the close
-- in src/promch/handlers/connection.py).
use prometheus_ch_exporter.Prelude.{ℕ, String, ◌≡◌, true, false, some}
use prometheus_ch_exporter.Dict.{get}
use prometheus_ch_exporter.Cells.{Objects}
use prometheus_ch_exporter.Cluster.Node.{Driver, Node}
use prometheus_ch_exporter.Secrets.Reader.{Transport}
use prometheus_ch_exporter.Registry.Concurrency.{World, Reach, has_id, IsDropped}

module _ (d : Driver) (py : Objects) (transport : ℕ → Transport) (own_namespace : String) where
  abbrev pub HasClient : World → (id : ℕ) → (host : String) → Type 0
  HasClient s id host =
      (n : Node) × (get (s.registry.heap id).topology.nodes host ≡ some n) × (n.has_client ≡ true)

  -- The state after the call.
  abbrev pub IsReopened : (s : World) (id : ℕ) (host : String) → Type 0
  IsReopened s id host =
      (t : World) × Reach d py transport own_namespace s t
      × IsDropped t.registry id
      × (has_id t.closing id ≡ false)
      × HasClient t id host
