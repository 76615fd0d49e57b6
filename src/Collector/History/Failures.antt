-- ===== src/Collector/History/Failures.antt =====
-- Failures since the last success: what they count, and what they leave to be served.
use prometheus_ch_exporter.Prelude.{
  ℕ, ◌+◌, ◌≤◌, String, ◌≡◌, ◌∙◌, refl, Bool, true, false, not, ◌||◌, ◌&&◌, some, List, [], ◌∷◌,
  arith, All, any_of, eq_refl, if◌then◌else◌,
}
use prometheus_ch_exporter.Dict.{get}
use prometheus_ch_exporter.Dict.Laws.{get-put}
use prometheus_ch_exporter.Collector.{QueryResult, CachedMetric, Entries, accept, update}
use prometheus_ch_exporter.Collector.History.{
  Op, unregistered, updated, failed, expired, run, step, react_all, calls_on,
}
use prometheus_ch_exporter.Collector.History.Isolation.{get-run}

-- The call neither deletes the query nor delivers a result.
abbrev pub NoResult : Op → Type 0
NoResult unregistered = ⊥
NoResult (updated rows duration tick now nodes) = ⊥
NoResult _ = Unit

abbrev pub is_failure : Op → Bool
is_failure (failed error_type message now nodes) = true
is_failure _ = false

abbrev pub is_expiry : Op → Bool
is_expiry expired = true
is_expiry _ = false

abbrev pub count_failures : List Op → ℕ
count_failures [] = 0
count_failures (op ∷ ops) = (if is_failure op then 1 else 0) + count_failures ops

-- What stays, what is counted and what is cleared between the entry `e` and a later one.
pub record Since (e e' : CachedMetric) (ops : List Op) : Type 0 where
  pub counted : e'.consecutive_failures ≡ e.consecutive_failures + count_failures ops
  pub rows_kept : e'.rows ≡ e.rows
  pub success_kept : e'.last_success_ts ≡ e.last_success_ts
  pub down : e'.up ≡ (e.up && not (any_of is_failure ops || any_of is_expiry ops))
  pub expiry : e'.expired ≡ (e.expired || any_of is_expiry ops)

step-Since :
    (e : CachedMetric) (op : Op)
    → NoResult op
    → (e' : CachedMetric) × (step e op ≡ some e') × Since e e' (op ∷ [])
step-Since e unregistered h = absurd h
step-Since e (updated rows duration tick now nodes) h = absurd h
step-Since e _ h = (_, refl, ground arith)

react_all-Since :
    (e : CachedMetric) (ops : List Op)
    → All NoResult ops
    → (e' : CachedMetric) × (react_all (some e) ops ≡ some e') × Since e e' ops
unfolding react_all
react_all-Since e [] h = (e, refl, ground arith)
react_all-Since e (op ∷ ops) h =
    let (e', one, first) = step-Since e op h.0 in
    let (e'', rest, later) = react_all-Since e' ops h.1 in (e'', rw one rest, ground arith)

pub get-update :
    (es : Entries) (key : String) (e : CachedMetric) (rows : List QueryResult)
    (duration tick now : ℕ) (nodes : List String)
    → get es key ≡ some e
    → e.tick_ts ≤ tick
    → get (update es key rows duration tick now nodes).0 key
      ≡ some (accept rows duration tick now nodes e)
unfolding update
get-update es key e rows duration tick now nodes here fresh = grind (arith, eq_refl key, get-put)

-- From an accepted result on, as long as no other result comes: the failures are counted exactly,
-- the query is up until the first failure or expiry, it is expired once it was expired, and the
-- rows and the time of the result stay.
pub update-run-Since :
    (es : Entries) (calls : List (String × Op)) (key : String) (e : CachedMetric)
    (rows : List QueryResult) (duration tick now : ℕ) (nodes : List String)
    → get es key ≡ some e
    → e.tick_ts ≤ tick
    → All NoResult (calls_on key calls)
    → (e' : CachedMetric) × (get (run (update es key rows duration tick now nodes).0 calls) key
        ≡ some e')
      × (e'.consecutive_failures ≡ count_failures (calls_on key calls))
      × (e'.up
          ≡ not (any_of is_failure (calls_on key calls) || any_of is_expiry (calls_on key calls)))
      × (e'.expired ≡ any_of is_expiry (calls_on key calls))
      × (e'.rows ≡ some rows)
      × (e'.last_success_ts ≡ some now)
update-run-Since es calls key e rows duration tick now nodes here fresh quiet =
    let e₁ = accept rows duration tick now nodes e in
    let (e', ends, since) = react_all-Since e₁ (calls_on key calls) quiet in
    (
      e',
      get-run _ calls key ∙ rw (get-update es key e rows duration tick now nodes here fresh) ends,
      since.counted ∙ omega arith,
      since.down,
      since.expiry,
      since.rows_kept,
      since.success_kept,
    )
