-- ===== src/Cluster/Connection/Answers.antt =====
-- What a data query answers (src/promch/clickhouse/connection.py, `execute_data_query`).
use prometheus_ch_exporter.Prelude.{
  ℕ, zero, suc, ◌+◌, String, ◌≡◌, refl, sym, ◌∙◌, true, false, Option, none, some, List, [], ◌∷◌,
  arith, eq_iff, is_some, inl, inr, Option-cases, subst,
}
use prometheus_ch_exporter.Prelude.Result.{Result, ok, err}
use prometheus_ch_exporter.Dict.{get}
use prometheus_ch_exporter.Dict.Laws.{get-put}
use prometheus_ch_exporter.Cells.{Row}
use prometheus_ch_exporter.Cluster.Node.{Driver, connection_error, Node, query}
use prometheus_ch_exporter.Cluster.Node.Health.{query-health}
use prometheus_ch_exporter.Cluster.Topology.{ConnectionSpec, Topology, pick_one_live, store}
use prometheus_ch_exporter.Cluster.Topology.Pool.{IsPool}
use prometheus_ch_exporter.Cluster.Topology.Membership.{store-IsPool}
use prometheus_ch_exporter.Cluster.Connection.{
  data_loop, execute_data_query, gives_up, out_of_nodes, no_live_error, DataResult,
}
use prometheus_ch_exporter.Cluster.Connection.Pick.{
  is_candidate, pick_one_live-some, pick_one_live-none,
}
use prometheus_ch_exporter.Cluster.Connection.Failover.{
  Within, goes_on, gave_up, refused, broke, answered, attempt, after_failure, message_of,
}
use prometheus_ch_exporter.Query.Execute.{RunError, node_query, node_connection, other}
use prometheus_ch_exporter.Cluster.Connection.Outcome.{
  AllDown, query-driver, DataOutcome, LoopInvariant,
}

module _ (d : Driver) (spec : ConnectionSpec) (random : ℕ → ℕ) (sql : String) (now : ℕ) where
  -- A failure of the node that was picked, after which the loop goes on.
  invariant_goes_on :
      (s t : Topology) (tried : List String) (attempts : ℕ) (last_error : Option String) (n : Node)
      (message again : String)
      → LoopInvariant spec s t tried attempts last_error
      → (get t.nodes n.host ≡ some n) × (is_candidate tried n ≡ true)
      → (query d n sql (now + attempts)).1 ≡ err (connection_error message)
      → Within spec (suc attempts)
      → LoopInvariant spec s
          (store t (query d n sql (now + attempts)).0)
          (n.host ∷ tried)
          (suc attempts)
          (some again)
  invariant_goes_on s t tried attempts last_error n message again i chosen a g =
      let (p', same_host, down) =
        after_failure d spec random sql now t tried (now + attempts) n message i.pool chosen a in
      let n' = (query d n sql (now + attempts)).0 in
      record {
        pool = p';
        untried = λ k u. ground (arith, get-put t.nodes n'.host n' k, i.untried k, eq_iff n.host k);
        dead =
            λ k m u here. ground (arith, get-put t.nodes n'.host n' k, i.dead k m, eq_iff n.host k);
        first = λ h. ground arith;
        bound = g;
      }

  never_gives_up : (attempts : ℕ) → is_some spec.max_failovers ≡ false → Within spec attempts
  unfolding gives_up
  never_gives_up attempts unbounded = ground arith

  first_attempt : Within spec 0
  unfolding gives_up
  first_attempt = ground arith

  -- A loop that ended with `u` and `v` ended with nothing else.
  settled :
      (s : Topology) (x : Option DataResult) (u t' : Topology) (v r : Result RunError (List Row))
      → x ≡ some (u, v)
      → x ≡ some (t', r)
      → IsPool u × DataOutcome d spec sql now s u v
      → IsPool t' × DataOutcome d spec sql now s t' r
  settled s x u t' v r a b h =
      let same : ◌≡◌ {A = DataResult} (u, v) (t', r) = cc in
      subst (λ (y : DataResult). IsPool y.0 × DataOutcome d spec sql now s y.0 y.1) same h

  all_down :
      (s t : Topology) (tried : List String) (attempts : ℕ) (last_error : Option String)
      → LoopInvariant spec s t tried attempts last_error
      → pick_one_live t tried (random attempts) ≡ none
      → AllDown t
  all_down s t tried attempts last_error i nobody k n here = ground (
    arith,
    pick_one_live-none t tried (random attempts) k n nobody here,
    i.pool.keyed k n here,
    i.dead k n,
  )

  nobody_left :
      (s t : Topology) (tried : List String) (attempts : ℕ) (last_error : Option String)
      → LoopInvariant spec s t tried attempts last_error
      → pick_one_live t tried (random attempts) ≡ none
      → DataOutcome d spec sql now s t (err (out_of_nodes spec last_error))
  unfolding out_of_nodes no_live_error
  nobody_left s t tried attempts none i nobody =
      ((i.first refl).0, subst AllDown (i.first refl).0 (all_down s t tried attempts none i nobody))
  nobody_left s t tried attempts (some m) i nobody =
      λ unbounded. all_down s t tried attempts (some m) i nobody

  -- What the driver said of a node that is picked decides the outcome.
  ended :
      (s t : Topology) (tried : List String) (attempts : ℕ) (last_error : Option String) (n : Node)
      → LoopInvariant spec s t tried attempts last_error
      → (get t.nodes n.host ≡ some n) × (is_candidate tried n ≡ true)
      → (get s.nodes n.host ≡ some n) × (n.alive ≡ true)
  ended s t tried attempts last_error n i chosen = ground (arith, i.untried n.host)

  data_loop-outcome :
      (fuel : ℕ) (s t : Topology) (tried : List String) (attempts : ℕ) (last_error : Option String)
      (t' : Topology) (r : Result RunError (List Row))
      → LoopInvariant spec s t tried attempts last_error
      → data_loop d spec random sql now fuel t tried attempts last_error ≡ some (t', r)
      → IsPool t' × DataOutcome d spec sql now s t' r
  unfolding data_loop
  data_loop-outcome zero s t tried attempts last_error t' r i h = ground arith
  data_loop-outcome (suc fuel) s t tried attempts last_error t' r i h =
      elim (Option-cases (pick_one_live t tried (random attempts))) [
        | inl nobody ↦
            settled s (data_loop d spec random sql now (suc fuel) t tried attempts last_error) t t'
              (err (out_of_nodes spec last_error)) r (ground arith) h
              (i.pool, nobody_left s t tried attempts last_error i nobody)
        | inr (n, picked) ↦
            let chosen = pick_one_live-some t tried (random attempts) n i.pool picked in
            let pool =
              store-IsPool t n (query d n sql (now + attempts)).0 i.pool chosen.0
                (query-health d n sql (now + attempts)).0.0 in
            let was = ended s t tried attempts last_error n i chosen in
            let said = query-driver d n sql (now + attempts) in
            elim (attempt d spec random sql now fuel t tried attempts last_error n picked) [
              | answered rows a same ↦
                  let (result, run, eq) = said.0 rows a in
                  settled s (data_loop d spec random sql now (suc fuel) t tried attempts last_error)
                    (store t (query d n sql (now + attempts)).0) t' (ok rows) r same h
                    (pool, (n.host, n, result, attempts, was.0, was.1, i.bound, run, eq))
              | refused message a same ↦
                  let (reason, run) = said.1 message a in
                  settled s (data_loop d spec random sql now (suc fuel) t tried attempts last_error)
                    (store t (query d n sql (now + attempts)).0) t' (err (node_query message)) r
                    same h (pool, (n.host, n, attempts, reason, was.0, was.1, i.bound, run))
              | broke message a same ↦
                  let run = said.2 message a in
                  settled s (data_loop d spec random sql now (suc fuel) t tried attempts last_error)
                    (store t (query d n sql (now + attempts)).0) t' (err (other message)) r same h
                    (pool, (n.host, n, attempts, was.0, was.1, i.bound, run))
              | gave_up message a g same ↦
                  settled s (data_loop d spec random sql now (suc fuel) t tried attempts last_error)
                    (store t (query d n sql (now + attempts)).0) t' (err (node_connection message))
                    r same h
                    (pool, λ unbounded k m here. ground (arith, never_gives_up (suc attempts)))
              | goes_on message a g same ↦
                  data_loop-outcome fuel s (store t (query d n sql (now + attempts)).0)
                    (n.host ∷ tried) (suc attempts)
                    (some (message_of d spec random sql now (query d n sql (now + attempts)).1)) t'
                    r
                    (invariant_goes_on s t tried attempts last_error n message
                      (message_of d spec random sql now (query d n sql (now + attempts)).1) i chosen
                      a g)
                    (sym same ∙ h)
            ]
      ]

  -- What a data query answers, whatever the random choices, when it returns. Rows are what the
  -- driver answered at one node that was live. An error of the query, or any other exception, is what the
  -- driver raised at one node that was live. They come from an attempt within the bound on failovers. The error of no live
  -- nodes means that the pool had none, and leaves it as it was. An error of connection is let out
  -- after a node has failed, and means, where nothing bounds the failovers, that every node is down
  -- now. The pool stays one.
  pub execute_data_query-outcome :
      (fuel : ℕ) (t t' : Topology) (r : Result RunError (List Row))
      → IsPool t
      → execute_data_query d spec random sql now fuel t ≡ some (t', r)
      → IsPool t' × DataOutcome d spec sql now t t' r
  unfolding execute_data_query
  execute_data_query-outcome fuel t t' r p h =
      data_loop-outcome fuel t t [] 0 none t' r
        (record {
          pool = p;
          untried = λ k u. refl;
          dead = λ k n u here. ground arith;
          first = λ e. (refl, refl);
          bound = first_attempt;
        })
        h
