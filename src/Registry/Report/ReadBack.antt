-- ===== src/Registry/Report/ReadBack.antt =====
-- A reported status can be read back (src/promch/handlers/connection.py).
use prometheus_ch_exporter.Prelude.{
  ℕ, String, ◌≡◌, refl, Bool, Option, none, some, List, [], ◌∷◌, map, ◌==◌, if◌then◌else◌,
}
use prometheus_ch_exporter.Dict.{Dict, get}
use prometheus_ch_exporter.Cluster.Node.{Node}
use prometheus_ch_exporter.Cluster.Snapshot.{
  ConnectionPhase, down, healthy, degraded, ConnectionStatus,
}
use prometheus_ch_exporter.Registry.Report.{
  NodeValue, word, flag, StatusValue, phase, count, list, node_status_to_dict, unless_none,
  phase_text, status_to_dict,
}

-- `NodeStatus`
pub record NodeStatus : Type 0 where
  pub host : String
  pub alive : Bool
  pub last_checked : Option ℕ
  pub last_error : Option String
  pub in_cluster : Bool

abbrev pub status_of : Node → NodeStatus
status_of n = record {
  host = n.host;
  alive = n.alive;
  last_checked = n.last_checked;
  last_error = n.last_error;
  in_cluster = n.in_cluster;
}

-- What a reader of a resource makes of its status.
pub record Seen : Type 0 where
  pub phase : ConnectionPhase
  pub total_nodes : ℕ
  pub alive_nodes : ℕ
  pub last_discovery : Option ℕ
  pub nodes : List NodeStatus

abbrev pub seen_of : ConnectionStatus → Seen
seen_of s = record {
  phase = s.phase;
  total_nodes = s.total_nodes;
  alive_nodes = s.alive_nodes;
  last_discovery = s.last_discovery;
  nodes = map status_of s.nodes;
}

infixl 5 ◌>>=◌
abbrev ◌>>=◌ : {A B : Type 0} → Option A → (A → Option B) → Option B
none >>= next = none
some a >>= next = next a

abbrev a_word : Option NodeValue → Option String
a_word (some (word s)) = some s
a_word (some (flag b)) = none
a_word (some (NodeValue.moment t)) = none
a_word none = none

abbrev a_flag : Option NodeValue → Option Bool
a_flag (some (flag b)) = some b
a_flag (some (word s)) = none
a_flag (some (NodeValue.moment t)) = none
a_flag none = none

-- A key that is missing is None.
abbrev a_time : Option NodeValue → Option (Option ℕ)
a_time none = some none
a_time (some (NodeValue.moment t)) = some (some t)
a_time (some (word s)) = none
a_time (some (flag b)) = none

abbrev an_error : Option NodeValue → Option (Option String)
an_error none = some none
an_error (some (word s)) = some (some s)
an_error (some (flag b)) = none
an_error (some (NodeValue.moment t)) = none

abbrev a_count : Option StatusValue → Option ℕ
a_count (some (count n)) = some n
a_count (some (phase s)) = none
a_count (some (StatusValue.moment t)) = none
a_count (some (list ns)) = none
a_count none = none

abbrev a_phase : Option StatusValue → Option ConnectionPhase
a_phase (some (phase s)) =
    if s == "Down"
    then some down
    else if s == "Healthy"
    then some healthy
    else if s == "Degraded"
    then some degraded
    else none
a_phase (some (count n)) = none
a_phase (some (StatusValue.moment t)) = none
a_phase (some (list ns)) = none
a_phase none = none

abbrev a_list : Option StatusValue → Option (List (Dict NodeValue))
a_list (some (list ns)) = some ns
a_list (some (phase s)) = none
a_list (some (count n)) = none
a_list (some (StatusValue.moment t)) = none
a_list none = none

abbrev a_discovery : Option StatusValue → Option (Option ℕ)
a_discovery none = some none
a_discovery (some (StatusValue.moment t)) = some (some t)
a_discovery (some (phase s)) = none
a_discovery (some (count n)) = none
a_discovery (some (list ns)) = none

unfoldable pub read_node : Dict NodeValue → Option NodeStatus
unfolding get
read_node d = do
  host ← a_word (get d "host")
  alive ← a_flag (get d "alive")
  in_cluster ← a_flag (get d "inCluster")
  last_checked ← a_time (get d "lastChecked")
  last_error ← an_error (get d "lastError")
  some (record {
    host = host;
    alive = alive;
    last_checked = last_checked;
    last_error = last_error;
    in_cluster = in_cluster;
  })

unfoldable pub read_nodes : List (Dict NodeValue) → Option (List NodeStatus)
unfolding read_node
read_nodes [] = some []
read_nodes (d ∷ ds) = do n ← read_node d; ns ← read_nodes ds; some (n ∷ ns)

unfoldable pub read_status : Dict StatusValue → Option Seen
unfolding get read_nodes
read_status d = do
  shown ← a_phase (get d "phase")
  total ← a_count (get d "totalNodes")
  alive ← a_count (get d "aliveNodes")
  listed ← a_list (get d "nodes")
  nodes ← read_nodes listed
  discovered ← a_discovery (get d "lastDiscovery")
  some (record {
    phase = shown;
    total_nodes = total;
    alive_nodes = alive;
    last_discovery = discovered;
    nodes = nodes;
  })

read_node-dict :
    (host : String) (alive in_cluster : Bool) (checked : Option ℕ) (error : Option String)
    (client : Bool) (used : ℕ)
    → let n : Node = record {
      host = host;
      alive = alive;
      in_cluster = in_cluster;
      last_checked = checked;
      last_error = error;
      has_client = client;
      last_used = used;
    } in
      read_node (node_status_to_dict n) ≡ some (status_of n)
unfolding read_node node_status_to_dict get
read_node-dict host alive in_cluster none none client used = refl
read_node-dict host alive in_cluster (some t) none client used = refl
read_node-dict host alive in_cluster none (some e) client used = refl
read_node-dict host alive in_cluster (some t) (some e) client used = refl

read_nodes-dict :
    (ns : List Node) → read_nodes (map node_status_to_dict ns) ≡ some (map status_of ns)
unfolding read_nodes
read_nodes-dict [] = refl
read_nodes-dict (n ∷ ns) =
    rw
      (
        read_node-dict n.host n.alive n.in_cluster n.last_checked n.last_error n.has_client
            n.last_used,
        read_nodes-dict ns,
      )
      refl

phase-text : (p : ConnectionPhase) → a_phase (some (phase (phase_text p))) ≡ some p
phase-text down = refl
phase-text healthy = refl
phase-text degraded = refl

discovery-kept :
    (o : Option ℕ)
    → a_discovery (get (unless_none "lastDiscovery" StatusValue.moment o) "lastDiscovery") ≡ some o
unfolding get
discovery-kept none = refl
discovery-kept (some t) = refl

-- What a handler patches determines the status: a reader that takes a missing key for None gets back
-- the phase, the counts, the time of the discovery, and each node with its health, in their order.
pub read_status-dict : (s : ConnectionStatus) → read_status (status_to_dict s) ≡ some (seen_of s)
unfolding read_status status_to_dict get
read_status-dict s =
    rw (phase-text s.phase, read_nodes-dict s.nodes, discovery-kept s.last_discovery) refl
