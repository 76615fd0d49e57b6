-- ===== src/Query/Execute/Expiry.antt =====
-- How many failures remove a metric: `_fail` of src/promch/handlers/query.py, and the failure that
-- `_execute` counts without it, after a success.
use prometheus_ch_exporter.Prelude.{
  ℕ, if◌then◌else◌, suc, nat_eq, none, ◌+◌, ◌≤◌, String, ◌≡◌, refl, ◌∙◌, ◌&&◌, ◌||◌, Option, some,
  List, [], ◌∷◌, arith, leb, ltb, nonempty, length,
}
use prometheus_ch_exporter.Dict.{get}
use prometheus_ch_exporter.Collector.{
  QueryResult, CachedMetric, Entries, accept, update, mark_failure,
}
use prometheus_ch_exporter.Collector.Collect.{is_served}
use prometheus_ch_exporter.Collector.History.Failures.{get-update}
use prometheus_ch_exporter.Query.Execute.{fail}
use prometheus_ch_exporter.Query.Execute.Failures.{failed_entry, get-fail, get-mark_failure}

-- How `_execute` counts a failure: by `_fail`, or by `mark_failure` alone where the connection is not
-- found.
pub data Failure : Type 0 where
  reported : (error_type message : String) (failed : Option (List String)) (now : ℕ) → Failure
  not_found : (message : String) (now : ℕ) → Failure

-- The failures up to the last one that `_fail` has counted.
unfoldable pub last_reported : List Failure → ℕ
last_reported [] = 0
last_reported (reported error_type message failed now ∷ fs) = suc (last_reported fs)
last_reported (not_found message now ∷ fs) =
    let rest = last_reported fs in if nat_eq rest 0 then 0 else suc rest

module _ (expire_after : ℕ) (key : String) where
  unfoldable pub count_failure : Entries → Failure → Entries
  count_failure es (reported error_type message failed now) =
      fail expire_after es key error_type message failed now
  count_failure es (not_found message now) =
      mark_failure es key "ConnectionNotReady" message now none

  unfoldable pub fail_all : Entries → List Failure → Entries
  unfolding count_failure
  fail_all es [] = es
  fail_all es (f ∷ fs) = fail_all (count_failure es f) fs

  -- `e'` is `e` after the failures.
  record Counts (e e' : CachedMetric) (fs : List Failure) : Type 0 where
    count : e'.consecutive_failures ≡ e.consecutive_failures + length fs
    gone : e'.expired ≡ (
        e.expired
        || (ltb 0 (last_reported fs)
            && leb expire_after (e.consecutive_failures + last_reported fs)))
    kept : e'.rows ≡ e.rows

  fail_all-Counts :
      (es : Entries) (e : CachedMetric) (fs : List Failure)
      → get es key ≡ some e
      → (e' : CachedMetric) × (get (fail_all es fs) key ≡ some e') × Counts e e' fs
  unfolding fail_all last_reported
  fail_all-Counts es e [] here =
      (e, here, record { count = ground arith; gone = ground arith; kept = refl })
  fail_all-Counts es e (reported error_type message failed now ∷ fs) here =
      let e₁ = failed_entry expire_after error_type message failed now e in
      let (e', ends, c) =
        fail_all-Counts (fail expire_after es key error_type message failed now) e₁ fs
          (get-fail expire_after es key error_type message failed now e here) in
      (
        e',
        ends,
        record { count = ground (arith, c.count); gone = ground (arith, c.gone); kept = c.kept },
      )
  fail_all-Counts es e (not_found message now ∷ fs) here =
      let (e', ends, c) =
        fail_all-Counts (mark_failure es key "ConnectionNotReady" message now none) _ fs
          (get-mark_failure es key "ConnectionNotReady" message now none e here) in
      (
        e',
        ends,
        record { count = ground (arith, c.count); gone = ground (arith, c.gone); kept = c.kept },
      )

  -- After an accepted result and any failures of runs, the failures are counted one by one and the
  -- rows of the result are never lost. They are served exactly while there are rows, and the failures
  -- up to the last one that `_fail` has counted are none or fewer than `expire_after_failures`; a
  -- connection that is not found counts, but does not itself expire the metric.
  pub expiry_exact :
      (es : Entries) (e : CachedMetric) (rows : List QueryResult) (duration tick now : ℕ)
      (nodes : List String) (fs : List Failure)
      → get es key ≡ some e
      → e.tick_ts ≤ tick
      → (e' : CachedMetric) × (get (fail_all (update es key rows duration tick now nodes).0 fs) key
          ≡ some e')
        × (e'.consecutive_failures ≡ length fs)
        × (e'.rows ≡ some rows)
        × (is_served (key, e') ≡ (
            (nat_eq (last_reported fs) 0 || ltb (last_reported fs) expire_after) && nonempty rows))
  expiry_exact es e rows duration tick now nodes fs here fresh =
      let e₁ = accept rows duration tick now nodes e in
      let (e', ends, c) =
        fail_all-Counts (update es key rows duration tick now nodes).0 e₁ fs
          (get-update es key e rows duration tick now nodes here fresh) in
      (e', ends, c.count ∙ ground arith, c.kept, ground (arith, c.gone, c.kept))
