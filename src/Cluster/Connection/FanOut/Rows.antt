-- ===== src/Cluster/Connection/FanOut/Rows.antt =====
-- From which node each row of a system query is (src/promch/clickhouse/connection.py).
use prometheus_ch_exporter.Prelude.{
  ℕ, String, ◌≡◌, sym, ◌∙◌, ap, true, Option, none, some, List, [], ◌∷◌, ◌++◌, arith, eq_refl, inl,
  inr, Bool-cases, keep_if, All, All-append, subst,
}
use prometheus_ch_exporter.Prelude.Result.{ok, Result-cases, ok-injective}
use prometheus_ch_exporter.Dict.{get, put, values, has}
use prometheus_ch_exporter.Dict.Laws.{get-put}
use prometheus_ch_exporter.Cells.{Row, text}
use prometheus_ch_exporter.Cluster.Node.{Driver, Node}
use prometheus_ch_exporter.Cluster.Topology.{ConnectionSpec, Topology, all_live}
use prometheus_ch_exporter.Cluster.Topology.Pool.{IsPool}
use prometheus_ch_exporter.Cluster.Connection.{
  run_on_node, gather, label_rows, merge_answers, execute_system_query,
}
use prometheus_ch_exporter.Cluster.Connection.Pick.{values-All, keep_if-All}
use prometheus_ch_exporter.Cluster.Connection.FanOut.Account.{ran}
use prometheus_ch_exporter.Query.Execute.{Reply}

module _ (node_label : String) where
  label_rows-All :
      (host : String) (rows labelled : List Row)
      → label_rows node_label host rows ≡ ok labelled
      → All (λ row. get row node_label ≡ some (text host)) labelled
  unfolding label_rows
  label_rows-All host [] labelled h = subst (All _) (ok-injective h) tt
  label_rows-All host (row ∷ rows) labelled h = elim (Bool-cases (has row node_label)) [
    | inl reserved ↦ ground arith
    | inr free ↦ elim (Result-cases (label_rows node_label host rows)) [
      | inr (e, a) ↦ ground arith
      | inl (more, a) ↦
          let built : put row node_label (text host) ∷ more ≡ labelled = ground arith in
          subst (All (λ row. get row node_label ≡ some (text host))) built (
            ground (arith, get-put row node_label (text host) node_label, eq_refl node_label),
            label_rows-All host rows more a,
          )
    ]
  ]

  -- The row is labelled with a host of which `P` holds.
  abbrev pub From : (String → Type 0) → Row → Type 0
  From P row = (host : String) × P host × (get row node_label ≡ some (text host))

  All-From :
      (P : String → Type 0) (host : String) (rows : List Row)
      → P host
      → All (λ row. get row node_label ≡ some (text host)) rows
      → All (From P) rows
  All-From P host [] holds h = tt
  All-From P host (row ∷ rows) holds h = ((host, holds, h.0), All-From P host rows holds h.1)

  merge_answers-All :
      (P : String → Type 0) (answers : List (String × Option (List Row))) (reply : Reply)
      → All (λ (a : String × Option (List Row)). P a.0) answers
      → merge_answers node_label answers ≡ ok reply
      → All (From P) reply.rows
  unfolding merge_answers
  merge_answers-All P [] reply known h =
      let same : [] ≡ reply.rows = ground arith in subst (All (From P)) same tt
  merge_answers-All P ((host, none) ∷ answers) reply known h =
      elim (Result-cases (merge_answers node_label answers)) [
        | inr (e, a) ↦ ground arith
        | inl (rest, a) ↦
            let same : rest.rows ≡ reply.rows = ground arith in
            subst (All (From P)) same (merge_answers-All P answers rest known.1 a)
      ]
  merge_answers-All P ((host, some rows) ∷ answers) reply known h =
      elim (Result-cases (label_rows node_label host rows)) [
        | inr (e, b) ↦ ground arith
        | inl (labelled, b) ↦ elim (Result-cases (merge_answers node_label answers)) [
          | inr (e, a) ↦ ground arith
          | inl (rest, a) ↦
              let same : labelled ++ rest.rows ≡ reply.rows = ground arith in
              subst (All (From P)) same (
                All-append (From P) labelled rest.rows
                  (All-From P host labelled known.0 (label_rows-All host rows labelled b))
                  (merge_answers-All P answers rest known.1 a))
        ]
      ]

gather-All :
    (d : Driver) (sql : String) (now : ℕ) (P : String → Type 0) (ns : List Node)
    (found : List (String × Option (List Row)))
    → All (λ (n : Node). P n.host) ns
    → (gather d sql now ns).1 ≡ ok found
    → All (λ (a : String × Option (List Row)). P a.0) found
unfolding gather
gather-All d sql now P [] found known h =
    subst (All (λ (a : String × Option (List Row)). P a.0)) (ok-injective h) tt
gather-All d sql now P (n ∷ ns) found known h = elim (Result-cases (run_on_node d sql now n).1) [
  | inr (e, b) ↦ ground arith
  | inl (rows, b) ↦ elim (Result-cases (gather d sql now ns).1) [
    | inr (e, a) ↦ ground arith
    | inl (more, a) ↦
        let same : (n.host, rows) ∷ more ≡ found = ground arith in
        subst (All (λ (a : String × Option (List Row)). P a.0)) same
          (known.0, gather-All d sql now P ns more known.1 a)
  ]
]

-- The host is one of a live node of the pool.
abbrev pub IsLive : Topology → String → Type 0
IsLive t host = (n : Node) × (get t.nodes host ≡ some n) × (n.alive ≡ true)

IsLive-All :
    (t : Topology) (ns : List Node)
    → All (λ (n : Node). (get t.nodes n.host ≡ some n) × (n.alive ≡ true)) ns
    → All (λ (n : Node). IsLive t n.host) ns
IsLive-All t [] h = tt
IsLive-All t (n ∷ ns) h = ((n, h.0.0, h.0.1), IsLive-All t ns h.1)

all_live-IsLive : (t : Topology) → IsPool t → All (λ (n : Node). IsLive t n.host) (all_live t)
unfolding all_live
all_live-IsLive t p = IsLive-All t (keep_if (λ n. n.alive) (values t.nodes)) (
    keep_if-All (λ n. get t.nodes n.host ≡ some n) (λ n. n.alive) (values t.nodes)
      (values-All (λ n. get t.nodes n.host ≡ some n) t.nodes p.unique
        (λ k n here. ap (get t.nodes) (p.keyed k n here) ∙ here)))

-- Every row that a system query returns is labelled with the host of a node that was live, whatever
-- the rows that the nodes answered.
pub system_rows-From :
    (d : Driver) (spec : ConnectionSpec) (sql : String) (now : ℕ) (node_label : String)
    (t t' : Topology) (reply : Reply)
    → IsPool t
    → execute_system_query d spec sql now node_label t ≡ (t', ok reply)
    → All (From node_label (IsLive t)) reply.rows
system_rows-From d spec sql now node_label t t' reply p h =
    let r = ran d sql now spec node_label t t' reply h in
    subst (All (From node_label (IsLive t))) (sym r.rows) (
      merge_answers-All node_label (IsLive t) r.found r.merged
        (gather-All d sql now (IsLive t) (all_live t) r.found (all_live-IsLive t p) r.gathered)
        r.labelled)
