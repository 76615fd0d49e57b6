-- ===== src/Cluster/Connection/Outcome.antt =====
-- What the result of a data query means, and what its loop keeps (src/promch/clickhouse/connection.py).
use prometheus_ch_exporter.Prelude.{
  ℕ, ◌+◌, String, ◌≡◌, true, false, Option, none, some, List, [], arith, contains, is_some, inl,
  inr,
}
use prometheus_ch_exporter.Prelude.Result.{Result, ok, err, Result-cases}
use prometheus_ch_exporter.Dict.{get}
use prometheus_ch_exporter.Cells.{Row}
use prometheus_ch_exporter.Cluster.Node.{
  Driver, ResultSet, operational, database, transport, unexpected, query_error, escaped, Node,
  query, rows_of,
}
use prometheus_ch_exporter.Cluster.Topology.{ConnectionSpec, Topology}
use prometheus_ch_exporter.Cluster.Topology.Pool.{IsPool}
use prometheus_ch_exporter.Cluster.Connection.Failover.{Within}
use prometheus_ch_exporter.Query.Execute.{
  RunError, no_live_nodes, node_query, node_connection, other,
}

-- Every node of the pool is down.
abbrev pub AllDown : Topology → Type 0
AllDown t = (k : String) (n : Node) → get t.nodes k ≡ some n → n.alive ≡ false

-- What a refused or an answered query got from the driver.
pub query-driver :
    (d : Driver) (n : Node) (sql : String) (at : ℕ)
    → ((rows : List Row)
        → (query d n sql at).1 ≡ ok rows
        → (r : ResultSet) × (d.run n.host sql at ≡ ok r) × (rows ≡ rows_of r))
      × ((message : String)
          → (query d n sql at).1 ≡ err (query_error message)
          → (m : String) × (d.run n.host sql at ≡ err (database m)))
      × ((message : String)
          → (query d n sql at).1 ≡ err (escaped message)
          → d.run n.host sql at ≡ err (unexpected message))
unfolding query
query-driver d n sql at = elim (Result-cases (d.run n.host sql at)) [
  | inl (r, h) ↦
      (λ rows a. (r, h, ground arith), λ message a. ground arith, λ message a. ground arith)
  | inr (database m, h) ↦ (λ rows a. ground arith, λ message a. (m, h), λ message a. ground arith)
  | inr (operational m, h) ↦
      (λ rows a. ground arith, λ message a. ground arith, λ message a. ground arith)
  | inr (transport m, h) ↦
      (λ rows a. ground arith, λ message a. ground arith, λ message a. ground arith)
  | inr (unexpected m, h) ↦
      (λ rows a. ground arith, λ message a. ground arith, λ message a. ground arith)
]

module _ (d : Driver) (spec : ConnectionSpec) (sql : String) (now : ℕ) where
  -- What the result says, for a pool `t` before the query and `t'` after it.
  abbrev pub DataOutcome : (t t' : Topology) → Result RunError (List Row) → Type 0
  DataOutcome t t' (ok rows) =
      (k : String) × (n : Node) × (r : ResultSet) × (a : ℕ) × (get t.nodes k ≡ some n)
      × (n.alive ≡ true)
      × Within spec a
      × (d.run k sql (now + a) ≡ ok r)
      × (rows ≡ rows_of r)
  DataOutcome t t' (err (no_live_nodes m)) = (t' ≡ t) × AllDown t
  DataOutcome t t' (err (node_connection m)) = (is_some spec.max_failovers ≡ false) → AllDown t'
  DataOutcome t t' (err (node_query m)) =
      (k : String) × (n : Node) × (a : ℕ) × (reason : String) × (get t.nodes k ≡ some n)
      × (n.alive ≡ true)
      × Within spec a
      × (d.run k sql (now + a) ≡ err (database reason))
  DataOutcome t t' (err (other m)) =
      (k : String) × (n : Node) × (a : ℕ) × (get t.nodes k ≡ some n)
      × (n.alive ≡ true)
      × Within spec a
      × (d.run k sql (now + a) ≡ err (unexpected m))

-- What holds where the loop is entered again, for the pool `s` that it began with.
pub record LoopInvariant (spec : ConnectionSpec) (s t : Topology) (tried : List String)
    (attempts : ℕ) (last_error : Option String) : Type 0 where
  pub pool : IsPool t
  pub untried : (k : String) → contains tried k ≡ false → get t.nodes k ≡ get s.nodes k
  pub dead :
      (k : String) (n : Node) → contains tried k ≡ true → get t.nodes k ≡ some n → n.alive ≡ false
  pub first : last_error ≡ none → (t ≡ s) × (tried ≡ [])
  pub bound : Within spec attempts
