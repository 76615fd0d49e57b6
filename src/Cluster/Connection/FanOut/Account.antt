-- ===== src/Cluster/Connection/FanOut/Account.antt =====
-- Which hosts a system query reports as failed (src/promch/clickhouse/connection.py).
use mathlib.Core.Option
use prometheus_ch_exporter.Prelude.{
  ℕ, String, ◌≡◌, refl, ◌∙◌, ap, Bool, true, not, ◌&&◌, ◌||◌, Option, none, some, List, [], ◌∷◌,
  ◌++◌, map, arith, if◌then◌else◌, contains, is_some, inl, inr, Option-cases, keep_if,
}
use prometheus_ch_exporter.Prelude.Sorting.{sorted_set, contains-sorted_set}
use prometheus_ch_exporter.Prelude.Result.{ok, Result-cases}
use prometheus_ch_exporter.Dict.{get, values}
use prometheus_ch_exporter.Cells.{Row}
use prometheus_ch_exporter.Cluster.Node.{Driver, Node, query}
use prometheus_ch_exporter.Cluster.Node.Health.{is_connection_error, query-health}
use prometheus_ch_exporter.Cluster.Topology.{ConnectionSpec, Topology, all_live}
use prometheus_ch_exporter.Cluster.Topology.Pool.{IsPool}
use prometheus_ch_exporter.Cluster.Connection.{
  run_on_node, gather, merge_answers, down_members, store_all, execute_system_query,
}
use prometheus_ch_exporter.Cluster.Snapshot.{hosts_of}
use prometheus_ch_exporter.Cluster.Connection.FanOut.{
  test, contains-hosts_of, get-store_all, store_all-kept, last_of-map,
}
use prometheus_ch_exporter.Query.Execute.{Reply}

contains-append :
    (xs ys : List String) (s : String) → contains (xs ++ ys) s ≡ (contains xs s || contains ys s)
contains-append [] ys s = refl
contains-append (x ∷ xs) ys s = ground (arith, contains-append xs ys s)

-- The hosts without an answer.
abbrev unanswered : List (String × Option (List Row)) → List String
unanswered [] = []
unanswered ((host, none) ∷ answers) = host ∷ unanswered answers
unanswered ((host, some rows) ∷ answers) = unanswered answers

merge_answers-unanswered :
    (node_label : String) (answers : List (String × Option (List Row))) (reply : Reply)
    → merge_answers node_label answers ≡ ok reply
    → reply.failed_nodes ≡ unanswered answers
unfolding merge_answers
merge_answers-unanswered node_label [] reply h = ground arith
merge_answers-unanswered node_label ((host, none) ∷ answers) reply h =
    elim (Result-cases (merge_answers node_label answers)) [
      | inl (rest, a) ↦ ground (arith, merge_answers-unanswered node_label answers rest a)
      | inr (e, a) ↦ ground arith
    ]
merge_answers-unanswered node_label ((host, some rows) ∷ answers) reply h =
    elim (Result-cases (merge_answers node_label answers)) [
      | inl (rest, a) ↦ ground (arith, merge_answers-unanswered node_label answers rest a)
      | inr (e, a) ↦ ground arith
    ]

module _ (d : Driver) (sql : String) (now : ℕ) where
  abbrev after_query : Node → Node
  after_query n = (query d n sql now).0

  abbrev unreachable : Node → Bool
  unreachable n = is_connection_error (query d n sql now).1

  gather-nodes : (ns : List Node) → (gather d sql now ns).0 ≡ map after_query ns
  unfolding gather run_on_node
  gather-nodes [] = refl
  gather-nodes (n ∷ ns) = ground (arith, gather-nodes ns)

  gather-unanswered :
      (ns : List Node) (found : List (String × Option (List Row)))
      → (gather d sql now ns).1 ≡ ok found
      → unanswered found ≡ hosts_of (keep_if unreachable ns)
  unfolding gather run_on_node
  gather-unanswered [] found h = ground arith
  gather-unanswered (n ∷ ns) found h = elim (Result-cases (gather d sql now ns).1) [
    | inl (rest, a) ↦ ground (arith, gather-unanswered ns rest a)
    | inr (e, a) ↦ ground arith
  ]

  -- A node after the query: a live one was asked, and any other was left alone.
  abbrev pub asked : Node → Node
  asked n = if n.alive then after_query n else n

  asked-same :
      (n : Node)
      → ((asked n).host ≡ n.host)
        × ((asked n).in_cluster ≡ n.in_cluster)
        × ((after_query n).host ≡ n.host)
        × (n.alive ≡ true → (after_query n).alive ≡ not (unreachable n))
  asked-same n = ground (arith, query-health d n sql now)

  get-asked :
      (t : Topology) (k : String)
      → IsPool t
      → get (store_all t (map after_query (all_live t))).nodes k ≡ Option.map asked (get t.nodes k)
  unfolding all_live
  get-asked t k p =
      get-store_all t (map after_query (all_live t)) k
      ∙ ground (
        arith,
        last_of-map after_query (λ n. n.alive) t.nodes k (λ n. (asked-same n).2) p.unique p.keyed,
      )

  keep_if-keep_if :
      (p q : Node → Bool) (ns : List Node) → keep_if p (keep_if q ns) ≡ keep_if (λ n. q n && p n) ns
  keep_if-keep_if p q [] = refl
  keep_if-keep_if p q (n ∷ ns) = ground (arith, keep_if-keep_if p q ns)

  module _ (spec : ConnectionSpec) (node_label : String) where
    -- What a system query that returns has gone through.
    pub record Ran (t t' : Topology) (reply : Reply) : Type 0 where
      pub found : List (String × Option (List Row))
      pub merged : Reply
      pub gathered : (gather d sql now (all_live t)).1 ≡ ok found
      pub labelled : merge_answers node_label found ≡ ok merged
      pub stored : t' ≡ store_all t (gather d sql now (all_live t)).0
      pub rows : reply.rows ≡ merged.rows
      pub failed : reply.failed_nodes ≡ sorted_set (merged.failed_nodes ++ down_members t')

    pub ran :
        (t t' : Topology) (reply : Reply)
        → execute_system_query d spec sql now node_label t ≡ (t', ok reply)
        → Ran t t' reply
    unfolding execute_system_query
    ran t t' reply h = elim (Result-cases (gather d sql now (all_live t)).1) [
      | inr (e, a) ↦ ground arith
      | inl (found, a) ↦ elim (Result-cases (merge_answers node_label found)) [
        | inr (e, b) ↦ ground arith
        | inl (merged, b) ↦ record {
          found = found;
          merged = merged;
          gathered = a;
          labelled = b;
          stored = ground arith;
          rows = ground arith;
          failed = ground arith;
        }
      ]
    ]

    -- The node counts as failed for a system query on the pool `t`.
    abbrev pub counts_failed : Topology → Node → Bool
    counts_failed t n =
        not (asked n).alive && (n.alive || (n.in_cluster || not (is_some t.last_discovery)))

    contains-down_members :
        (t t' : Topology) (k : String)
        → IsPool t
        → t' ≡ store_all t (map after_query (all_live t))
        → contains (down_members t') k
          ≡ test
              (λ n. not (asked n).alive && (n.in_cluster || not (is_some t.last_discovery)))
              (get t.nodes k)
    unfolding down_members
    contains-down_members t t' k p stored =
        let kept = store_all-kept t (map after_query (all_live t)) p.unique p.keyed in
        rw stored (
          contains-hosts_of
            (λ n.
              not n.alive
              && (n.in_cluster
                  || not (is_some (store_all t (map after_query (all_live t))).last_discovery)))
            (store_all t (map after_query (all_live t))).nodes k kept.0 kept.1
          ∙ rw (kept.2, get-asked t k p)
              (elim (Option-cases (get t.nodes k)) [
                | inl missing ↦ rw missing refl
                | inr (n, here) ↦ rw here (ground (arith, asked-same n))
              ]))

    contains-unanswered :
        (t t' : Topology) (reply : Reply) (r : Ran t t' reply) (k : String)
        → IsPool t
        → contains r.merged.failed_nodes k ≡ test (λ n. n.alive && unreachable n) (get t.nodes k)
    unfolding all_live
    contains-unanswered t t' reply r k p =
        ap (λ hosts. contains hosts k)
          (merge_answers-unanswered node_label r.found r.merged r.labelled
            ∙ gather-unanswered (all_live t) r.found r.gathered
            ∙ ap hosts_of (keep_if-keep_if unreachable (λ n. n.alive) (values t.nodes)))
        ∙ contains-hosts_of (λ n. n.alive && unreachable n) t.nodes k p.unique p.keyed

    -- The failed nodes that a system query reports are exactly these: nodes that were live and did
    -- not answer, and nodes that were down already and are members of the cluster, or any node that
    -- was down where no discovery has succeeded. The query asks each live node once and leaves the
    -- health that its answer gives.
    pub failed_nodes-exact :
        (t t' : Topology) (reply : Reply) (k : String)
        → IsPool t
        → execute_system_query d spec sql now node_label t ≡ (t', ok reply)
        → (contains reply.failed_nodes k ≡ test (counts_failed t) (get t.nodes k))
          × (get t'.nodes k ≡ Option.map asked (get t.nodes k))
    failed_nodes-exact t t' reply k p h =
        let r = ran t t' reply h in
        let stored : t' ≡ store_all t (map after_query (all_live t)) =
          r.stored ∙ ap (store_all t) (gather-nodes (all_live t)) in
        (
          ap (λ hosts. contains hosts k) r.failed
              ∙ contains-sorted_set (r.merged.failed_nodes ++ down_members t') k
              ∙ contains-append r.merged.failed_nodes (down_members t') k
              ∙ rw (contains-unanswered t t' reply r k p, contains-down_members t t' k p stored)
                  (elim (Option-cases (get t.nodes k)) [
                    | inl missing ↦ rw missing refl
                    | inr (n, here) ↦ rw here (ground (arith, asked-same n))
                  ]),
          rw stored (get-asked t k p),
        )
