-- ===== src/Cluster/Node/Health.antt =====
-- What a node's health says after a query or a ping (src/promch/clickhouse/node.py).
use prometheus_ch_exporter.Prelude.{
  ℕ, String, ◌≡◌, Bool, true, false, not, ◌&&◌, ◌||◌, none, some, List, arith, is_some,
}
use prometheus_ch_exporter.Prelude.Result.{Result, err, is_err}
use prometheus_ch_exporter.Cells.{Row}
use prometheus_ch_exporter.Cluster.Node.{
  Driver, NodeError, connection_error, query_error, escaped, Node, query, ping,
}

-- The node can be reached: a client is there or can be made.
abbrev pub connects : Driver → Node → ℕ → Bool
connects d n now = n.has_client || not (is_err (d.connect n.host now))

abbrev pub is_other_error : Result NodeError (List Row) → Bool
is_other_error (err (query_error m)) = true
is_other_error (err (escaped m)) = true
is_other_error _ = false

abbrev pub is_connection_error : Result NodeError (List Row) → Bool
is_connection_error (err (connection_error m)) = true
is_connection_error _ = false

-- What never changes: whose node it is, and its membership.
abbrev pub SameNode : Node → Node → Type 0
SameNode n n' = (n'.host ≡ n.host) × (n'.in_cluster ≡ n.in_cluster)

-- After a query: rows mean a node that is alive, with no error and its client kept; an error of
-- connection means a node that is down, with an error and no client left unless none was made; any
-- other error leaves the health as it was.
pub query-health :
    (d : Driver) (n : Node) (sql : String) (now : ℕ)
    → let (n', r) = query d n sql now in
      SameNode n n'
      × (is_err r ≡ false
          → (n'.alive ≡ true)
            × (n'.last_error ≡ none)
            × (n'.has_client ≡ true)
            × (n'.last_checked ≡ some now))
      × (is_connection_error r ≡ true
          → (n'.alive ≡ false)
            × (is_some n'.last_error ≡ true)
            × (n'.has_client ≡ false)
            × (n'.last_checked ≡ some now))
      × (is_other_error r ≡ true
          → (n'.alive ≡ n.alive)
            × (n'.last_error ≡ n.last_error)
            × (n'.last_checked ≡ n.last_checked)
            × (n'.has_client ≡ true))
unfolding query
query-health d n sql now = ground arith

-- After a ping the node is alive exactly if a client was there or could be made and the call of its
-- `ping` did not raise, whatever Boolean it answered; a node that is down has no client.
pub ping-health :
    (d : Driver) (n : Node) (now : ℕ)
    → let (n', answer) = ping d n now in
      SameNode n n'
      × (answer ≡ (connects d n now && not (is_err (d.ping n.host now))))
      × (n'.alive ≡ answer)
      × (n'.has_client ≡ answer)
      × (n'.last_checked ≡ some now)
      × (is_some n'.last_error ≡ not answer)
unfolding ping
ping-health d n now = ground arith
