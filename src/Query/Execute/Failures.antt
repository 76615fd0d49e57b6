-- ===== src/Query/Execute/Failures.antt =====
-- The entry after `_fail` and `mark_failure`, and the steps of `_execute` that lead there
-- (src/promch/handlers/query.py).
use prometheus_ch_exporter.Prelude.{
  ℕ, ◌+◌, String, ◌≡◌, ◌≢◌, true, false, Option, none, some, List, arith, leb, ltb, eq_iff, eq_refl,
  if◌then◌else◌,
}
use prometheus_ch_exporter.Prelude.Result.{ok, err}
use prometheus_ch_exporter.Cells.{Objects}
use prometheus_ch_exporter.Dict.{get}
use prometheus_ch_exporter.Dict.Laws.{get-put}
use prometheus_ch_exporter.Collector.{QueryResult, CachedMetric, Entries, update, mark_failure}
use prometheus_ch_exporter.Query.Rows.{build_rows}
use prometheus_ch_exporter.Query.Execute.{Reply, fail, deliver}

pub stale-update :
    (es : Entries) (key : String) (e : CachedMetric) (rows : List QueryResult)
    (duration tick now : ℕ) (nodes : List String)
    → get es key ≡ some e
    → ltb tick e.tick_ts ≡ true
    → (update es key rows duration tick now nodes).0 ≡ es
unfolding update
stale-update es key e rows duration tick now nodes here old = ground arith

pub get-mark_failure :
    (es : Entries) (key error_type message : String) (now : ℕ) (failed : Option (List String))
    (e : CachedMetric)
    → get es key ≡ some e
    → get (mark_failure es key error_type message now failed) key
      ≡ some (record e {
        up = false;
        consecutive_failures = e.consecutive_failures + 1;
        last_error = some (record { type = error_type; message = message; timestamp = now });
        waiting_reason = none;
        failed_nodes = elim failed [ none ↦ e.failed_nodes | some nodes ↦ nodes ];
      })
unfolding mark_failure
get-mark_failure es key error_type message now failed e here = grind (arith, eq_refl key, get-put)

-- What `_fail` makes of the entry of its key.
abbrev pub failed_entry :
    (expire_after : ℕ) (error_type message : String) (failed : Option (List String)) (now : ℕ)
    → CachedMetric
    → CachedMetric
failed_entry expire_after error_type message failed now e = record e {
  up = false;
  consecutive_failures = e.consecutive_failures + 1;
  last_error = some (record { type = error_type; message = message; timestamp = now });
  waiting_reason = none;
  failed_nodes = elim failed [ none ↦ e.failed_nodes | some nodes ↦ nodes ];
  expired = if leb expire_after (e.consecutive_failures + 1) then true else e.expired;
}

module _ (expire_after : ℕ) (es : Entries) (key : String) where
  pub get-fail :
      (error_type message : String) (failed : Option (List String)) (now : ℕ) (e : CachedMetric)
      → get es key ≡ some e
      → get (fail expire_after es key error_type message failed now) key
        ≡ some (failed_entry expire_after error_type message failed now e)
  unfolding fail
  get-fail error_type message failed now e here = grind (arith, eq_refl key, get-put)

  pub get-fail_ne :
      (error_type message : String) (failed : Option (List String)) (now : ℕ) (j : String)
      → key ≢ j
      → get (fail expire_after es key error_type message failed now) j ≡ get es j
  unfolding fail
  get-fail_ne error_type message failed now j h = grind (arith, eq_iff key j, get-put)

module _ (py : Objects) (expire_after : ℕ) (es : Entries) (key : String) (reply : Reply)
    (duration tick now : ℕ) where
  pub deliver_err :
      (message : String)
      → build_rows py reply.rows ≡ err message
      → deliver py expire_after es key reply duration tick now
        ≡ fail expire_after es key "InvalidResult" message none now
  unfolding deliver
  deliver_err message bad = rw (bad, deliver)

  pub deliver_ok :
      (rows : List QueryResult)
      → build_rows py reply.rows ≡ ok rows
      → deliver py expire_after es key reply duration tick now
        ≡ (update es key rows duration tick now reply.failed_nodes).0
  unfolding deliver
  deliver_ok rows built = rw (built, deliver)
