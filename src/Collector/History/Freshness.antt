-- ===== src/Collector/History/Freshness.antt =====
-- Results that arrive late: what the tick test of `update` guarantees in any order of calls.
use prometheus_ch_exporter.Prelude.{
  ℕ, ◌≤◌, String, ◌≡◌, ◌∙◌, refl, ◌⊎◌, inl, inr, Option, some, List, [], ◌∷◌, arith, All, ltb,
  Bool-cases,
}
use prometheus_ch_exporter.Dict.{get}
use prometheus_ch_exporter.Collector.{QueryResult, CachedMetric, Entries, accept}
use prometheus_ch_exporter.Collector.History.{
  Op, unregistered, updated, run, step, react_all, calls_on,
}
use prometheus_ch_exporter.Collector.History.Isolation.{get-run}

-- The call does not delete the query.
abbrev pub Stays : Op → Type 0
Stays unregistered = ⊥
Stays _ = Unit

-- The tick of a result is at most `t`.
abbrev pub NotAfter : ℕ → Op → Type 0
NotAfter t (updated rows duration tick now nodes) = tick ≤ t
NotAfter t _ = Unit

-- The call brings these rows, at this tick.
abbrev pub Brings : Option (List QueryResult) → ℕ → Op → Type 0
Brings rows t (updated rows' duration tick now nodes) = (rows ≡ some rows') × (t ≡ tick)
Brings _ _ _ = ⊥

abbrev pub Some : (Op → Type 0) → List Op → Type 0
Some P [] = ⊥
Some P (op ∷ ops) = P op ⊎ Some P ops

-- What the entry `e'` holds is no older than any result of `ops`, and is one of them or that of `e`.
pub record IsNewest (e e' : CachedMetric) (ops : List Op) : Type 0 where
  pub newest : All (NotAfter e'.tick_ts) ops
  pub advances : e.tick_ts ≤ e'.tick_ts
  pub source :
      ((e'.rows ≡ e.rows) × (e'.tick_ts ≡ e.tick_ts)) ⊎ Some (Brings e'.rows e'.tick_ts) ops

-- One call.
step-IsNewest :
    (e : CachedMetric) (op : Op)
    → Stays op
    → (e' : CachedMetric) × (step e op ≡ some e') × IsNewest e e' (op ∷ [])
step-IsNewest e unregistered s = absurd s
step-IsNewest e (updated rows duration tick now nodes) s = elim (Bool-cases (ltb tick e.tick_ts)) [
  | inl old ↦ (e, rw old, ground arith)
  | inr new ↦ (
    accept rows duration tick now nodes e,
    rw new,
    record { newest = ground arith; advances = ground arith; source = inr (inl (refl, refl)) },
  )
]
step-IsNewest e _ s =
    (_, refl, record { newest = (tt, tt); advances = omega arith; source = inl (refl, refl) })

NotAfter-mono : (t t' : ℕ) (ops : List Op) → t ≤ t' → All (NotAfter t) ops → All (NotAfter t') ops
NotAfter-mono t t' [] h a = tt
NotAfter-mono t t' (updated rows duration tick now nodes ∷ ops) h a =
    (omega arith, NotAfter-mono t t' ops h a.1)
NotAfter-mono t t' (unregistered ∷ ops) h a = (tt, NotAfter-mono t t' ops h a.1)
NotAfter-mono t t' (op ∷ ops) h a = (tt, NotAfter-mono t t' ops h a.1)

IsNewest-cons :
    (e e' e'' : CachedMetric) (op : Op) (ops : List Op)
    → IsNewest e e' (op ∷ [])
    → IsNewest e' e'' ops
    → IsNewest e e'' (op ∷ ops)
IsNewest-cons e e' e'' op ops h t = record {
  newest = ((NotAfter-mono e'.tick_ts e''.tick_ts (op ∷ []) t.advances h.newest).0, t.newest);
  advances = omega (arith, h.advances, t.advances);
  source = elim t.source [
    | inr there ↦ inr (inr there)
    | inl same ↦ elim h.source [
      | inl kept ↦ inl (same.0 ∙ kept.0, same.1 ∙ kept.1)
      | inr (inl here) ↦ inr (inl (rw (same.0, same.1) here))
      | inr (inr none_left) ↦ absurd none_left
    ]
  ];
}

react_all-IsNewest :
    (e : CachedMetric) (ops : List Op)
    → All Stays ops
    → (e' : CachedMetric) × (react_all (some e) ops ≡ some e') × IsNewest e e' ops
unfolding react_all
react_all-IsNewest e [] s =
    (e, refl, record { newest = tt; advances = omega arith; source = inl (refl, refl) })
react_all-IsNewest e (op ∷ ops) s =
    let (e', one, h) = step-IsNewest e op s.0 in
    let (e'', rest, t) = react_all-IsNewest e' ops s.1 in
    (e'', rw one rest, IsNewest-cons e e' e'' op ops h t)

-- While a query stays registered, through any calls on any queries and in any order of its results:
-- the rows that it holds are those of a result that was delivered with them, or the ones it held at
-- first, and no result that was delivered is of a later tick.
pub run-IsNewest :
    (es : Entries) (calls : List (String × Op)) (key : String) (e : CachedMetric)
    → get es key ≡ some e
    → All Stays (calls_on key calls)
    → (e' : CachedMetric) × (get (run es calls) key ≡ some e') × IsNewest e e' (calls_on key calls)
run-IsNewest es calls key e here stays =
    let (e', ends, newest) = react_all-IsNewest e (calls_on key calls) stays in
    (e', get-run es calls key ∙ rw here ends, newest)
