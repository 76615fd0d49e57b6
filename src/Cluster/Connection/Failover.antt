-- ===== src/Cluster/Connection/Failover.antt =====
-- The end of the failover of a data query (src/promch/clickhouse/connection.py, `execute_data_query`).
use prometheus_ch_exporter.Prelude.{
  ℕ, zero, suc, ◌+◌, ◌<◌, ◌≤◌, String, ◌≡◌, refl, Bool, true, false, Option, none, some, List, [],
  ◌∷◌, arith, is_some, inl, inr, ◌⊎◌, Option-cases, Bool-cases, length,
}
use prometheus_ch_exporter.Prelude.Result.{Result, ok, err, Result-cases}
use prometheus_ch_exporter.Dict.{get}
use prometheus_ch_exporter.Cells.{Row}
use prometheus_ch_exporter.Cluster.Node.{
  Driver, NodeError, connection_error, query_error, escaped, Node, query,
}
use prometheus_ch_exporter.Cluster.Node.Health.{query-health}
use prometheus_ch_exporter.Cluster.Topology.{
  ConnectionSpec, Topology, all_live, pick_one_live, store,
}
use prometheus_ch_exporter.Cluster.Topology.Pool.{IsPool}
use prometheus_ch_exporter.Cluster.Topology.Membership.{store-IsPool}
use prometheus_ch_exporter.Cluster.Connection.{data_loop, execute_data_query, gives_up, DataResult}
use prometheus_ch_exporter.Cluster.Connection.Pick.{
  is_candidate, count, count-weaker, pick_one_live-some, fewer_candidates,
}
use prometheus_ch_exporter.Query.Execute.{node_query, node_connection, other}

abbrev pub is_alive : Node → Bool
is_alive n = n.alive

-- The most attempts that the specification allows, if it bounds them.
abbrev pub Within : ConnectionSpec → (attempts : ℕ) → Type 0
Within spec attempts = gives_up spec attempts ≡ false

module _ (d : Driver) (spec : ConnectionSpec) (random : ℕ → ℕ) (sql : String) (now : ℕ) where
  -- What an attempt on a picked node comes to: the loop goes on, or it ends with the node's answer.
  pub data Attempt (t : Topology) (n : Node) (attempts : ℕ) (this next : Option DataResult)
      : Type 0 where
    goes_on :
        (message : String)
        → (query d n sql (now + attempts)).1 ≡ err (connection_error message)
        → Within spec (suc attempts)
        → this ≡ next
        → Attempt t n attempts this next
    gave_up :
        (message : String)
        → (query d n sql (now + attempts)).1 ≡ err (connection_error message)
        → gives_up spec (suc attempts) ≡ true
        → this ≡ some (store t (query d n sql (now + attempts)).0, err (node_connection message))
        → Attempt t n attempts this next
    refused :
        (message : String)
        → (query d n sql (now + attempts)).1 ≡ err (query_error message)
        → this ≡ some (store t (query d n sql (now + attempts)).0, err (node_query message))
        → Attempt t n attempts this next
    broke :
        (message : String)
        → (query d n sql (now + attempts)).1 ≡ err (escaped message)
        → this ≡ some (store t (query d n sql (now + attempts)).0, err (other message))
        → Attempt t n attempts this next
    answered :
        (rows : List Row)
        → (query d n sql (now + attempts)).1 ≡ ok rows
        → this ≡ some (store t (query d n sql (now + attempts)).0, ok rows)
        → Attempt t n attempts this next

  -- The message with which a node failed.
  abbrev pub message_of : Result NodeError (List Row) → String
  message_of (err (connection_error message)) = message
  message_of _ = ""

  pub attempt :
      (fuel : ℕ) (t : Topology) (tried : List String) (attempts : ℕ) (last_error : Option String)
      (n : Node)
      → pick_one_live t tried (random attempts) ≡ some n
      → let (n', answer) = query d n sql (now + attempts) in
        Attempt t n attempts
          (data_loop d spec random sql now (suc fuel) t tried attempts last_error)
          (data_loop d spec random sql now fuel
            (store t n')
            (n.host ∷ tried)
            (suc attempts)
            (some (message_of answer)))
  unfolding data_loop
  attempt fuel t tried attempts last_error n picked =
      elim (Result-cases (query d n sql (now + attempts)).1) [
        | inl (rows, a) ↦ answered rows a (ground arith)
        | inr (query_error message, a) ↦ refused message a (ground arith)
        | inr (escaped message, a) ↦ broke message a (ground arith)
        | inr (connection_error message, a) ↦ elim (Bool-cases (gives_up spec (suc attempts))) [
          | inl g ↦ gave_up message a g (ground arith)
          | inr g ↦ goes_on message a g (ground arith)
        ]
      ]

  pub after_failure :
      (t : Topology) (tried : List String) (at : ℕ) (n : Node) (message : String)
      → IsPool t
      → (get t.nodes n.host ≡ some n) × (is_candidate tried n ≡ true)
      → (query d n sql at).1 ≡ err (connection_error message)
      → IsPool (store t (query d n sql at).0)
        × ((query d n sql at).0.host ≡ n.host)
        × ((query d n sql at).0.alive ≡ false)
  after_failure t tried at n message p here a = (
    store-IsPool t n (query d n sql at).0 p here.0 (query-health d n sql at).0.0,
    (query-health d n sql at).0.0,
    ground (arith, query-health d n sql at),
  )

  terminates :
      (fuel : ℕ) (t : Topology) (tried : List String) (attempts : ℕ) (last_error : Option String)
      → IsPool t
      → count (is_candidate tried) t.nodes < fuel
      → is_some (data_loop d spec random sql now fuel t tried attempts last_error) ≡ true
  unfolding data_loop
  terminates zero t tried attempts last_error p h = ground arith
  terminates (suc fuel) t tried attempts last_error p h =
      elim (Option-cases (pick_one_live t tried (random attempts))) [
        | inl nobody ↦ ground arith
        | inr (n, picked) ↦ elim (attempt fuel t tried attempts last_error n picked) [
          | answered rows a same ↦ rw same refl
          | refused message a same ↦ rw same refl
          | broke message a same ↦ rw same refl
          | gave_up message a g same ↦ rw same refl
          | goes_on message a g same ↦
              let chosen = pick_one_live-some t tried (random attempts) n p picked in
              let (p', same_host, dead) =
                after_failure t tried (now + attempts) n message p chosen a in
              let n' = (query d n sql (now + attempts)).0 in
              rw same (
                terminates fuel (store t n') (n.host ∷ tried) (suc attempts)
                  (some (message_of (query d n sql (now + attempts)).1)) p'
                  (omega
                    (arith, fewer_candidates t tried n n' chosen.0 chosen.1 same_host dead, h)))
        ]
      ]

  terminates_bound :
      (fuel : ℕ) (t : Topology) (tried : List String) (attempts : ℕ) (last_error : Option String)
      (limit : ℕ)
      → spec.max_failovers ≡ some limit
      → attempts ≤ limit
      → limit < attempts + fuel
      → is_some (data_loop d spec random sql now fuel t tried attempts last_error) ≡ true
  unfolding data_loop gives_up
  terminates_bound zero t tried attempts last_error limit bounded small h = ground arith
  terminates_bound (suc fuel) t tried attempts last_error limit bounded small h =
      elim (Option-cases (pick_one_live t tried (random attempts))) [
        | inl nobody ↦ ground arith
        | inr (n, picked) ↦ elim (attempt fuel t tried attempts last_error n picked) [
          | answered rows a same ↦ rw same refl
          | refused message a same ↦ rw same refl
          | broke message a same ↦ rw same refl
          | gave_up message a g same ↦ rw same refl
          | goes_on message a g same ↦
              let answer = (query d n sql (now + attempts)).1 in
              rw same (
                terminates_bound fuel (store t (query d n sql (now + attempts)).0) (n.host ∷ tried)
                  (suc attempts) (some (message_of answer)) limit bounded (ground arith)
                  (omega (arith, h)))
        ]
      ]

-- The loop of a data query ends: it needs at most one pass for each live node and one more, and
-- with a bound on failovers it makes at most one attempt more than the bound.
pub execute_data_query-is_some :
    (d : Driver) (spec : ConnectionSpec) (random : ℕ → ℕ) (sql : String) (now fuel : ℕ)
    (t : Topology)
    → IsPool t
    → (length (all_live t) < fuel)
      ⊎ ((limit : ℕ) × (spec.max_failovers ≡ some limit) × (limit < fuel))
    → is_some (execute_data_query d spec random sql now fuel t) ≡ true
unfolding execute_data_query all_live
execute_data_query-is_some d spec random sql now fuel t p (inl h) =
    terminates d spec random sql now fuel t [] 0 none p
      (omega (arith, count-weaker is_alive (is_candidate []) t.nodes (λ m c. ground arith), h))
execute_data_query-is_some d spec random sql now fuel t p (inr (limit, bounded, h)) =
    terminates_bound d spec random sql now fuel t [] 0 none limit bounded (omega arith)
      (omega (arith, h))
