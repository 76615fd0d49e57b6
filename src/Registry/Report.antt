-- ===== src/Registry/Report.antt =====
-- What a handler patches into the `.status` of a connection: `_node_status_to_dict` and
-- `_status_to_dict` of src/promch/handlers/connection.py.
pub mod ReadBack
use prometheus_ch_exporter.Prelude.{ℕ, String, Bool, Option, none, some, List, [], ◌∷◌, ◌++◌, map}
use prometheus_ch_exporter.Dict.{Dict}
use prometheus_ch_exporter.Cluster.Node.{Node}
use prometheus_ch_exporter.Cluster.Snapshot.{
  ConnectionPhase, down, healthy, degraded, ConnectionStatus,
}

-- A value of a node's dictionary.
pub data NodeValue : Type 0 where
  word : String → NodeValue
  flag : Bool → NodeValue
  moment : (time : ℕ) → NodeValue

-- A value of a status's dictionary.
pub data StatusValue : Type 0 where
  phase : String → StatusValue
  count : ℕ → StatusValue
  moment : (time : ℕ) → StatusValue
  list : List (Dict NodeValue) → StatusValue

-- `if x is not None: out[key] = ...`, for a key that is not there yet
abbrev pub unless_none {ℓ κ} : {A : Type ℓ} {V : Type κ} → String → (A → V) → Option A → Dict V
unless_none key f none = []
unless_none key f (some a) = (key, f a) ∷ []

unfoldable pub node_status_to_dict : Node → Dict NodeValue
node_status_to_dict n =
    ("host", word n.host)
    ∷ ("alive", flag n.alive)
    ∷ ("inCluster", flag n.in_cluster)
    ∷ (unless_none "lastChecked" NodeValue.moment n.last_checked
        ++ unless_none "lastError" word n.last_error)

abbrev pub phase_text : ConnectionPhase → String
phase_text down = "Down"
phase_text healthy = "Healthy"
phase_text degraded = "Degraded"

unfoldable pub status_to_dict : ConnectionStatus → Dict StatusValue
unfolding node_status_to_dict
status_to_dict s =
    ("phase", phase (phase_text s.phase))
    ∷ ("totalNodes", count s.total_nodes)
    ∷ ("aliveNodes", count s.alive_nodes)
    ∷ ("nodes", list (map node_status_to_dict s.nodes))
    ∷ unless_none "lastDiscovery" StatusValue.moment s.last_discovery
