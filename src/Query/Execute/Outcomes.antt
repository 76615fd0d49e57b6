-- ===== src/Query/Execute/Outcomes.antt =====
-- What a run leaves behind, on every path of `_execute` in src/promch/handlers/query.py.
use prometheus_ch_exporter.Prelude.{
  ℕ, ◌+◌, ◌≤◌, ◌<◌, String, ◌<>◌, ◌≡◌, refl, inl, inr, Bool, true, false, not, ◌&&◌, Option, none,
  some, List, arith, ltb, ◌==◌, if◌then◌else◌, nonempty, Bool-cases,
}
use prometheus_ch_exporter.Prelude.Result.{Result, ok, err, Result-cases}
use prometheus_ch_exporter.Prelude.Text.{join}
use prometheus_ch_exporter.Cells.{Objects}
use prometheus_ch_exporter.Dict.{get}
use prometheus_ch_exporter.Collector.{
  QueryResult, LastError, CachedMetric, Entries, accept, mark_failure,
}
use prometheus_ch_exporter.Collector.History.Failures.{get-update}
use prometheus_ch_exporter.Query.Rows.{build_rows}
use prometheus_ch_exporter.Query.Execute.{
  RunError, no_live_nodes, node_query, node_connection, other, Reply, fail, deliver, handle_error,
  execute,
}
use prometheus_ch_exporter.Query.Execute.Failures.{
  deliver_err, deliver_ok, failed_entry, get-fail, get-mark_failure, stale-update,
}

-- The run is counted as a failure, and what an earlier success left is kept.
pub record Failed (e e' : CachedMetric) : Type 0 where
  pub counted : e'.consecutive_failures ≡ e.consecutive_failures + 1
  pub down : e'.up ≡ false
  pub explained : (error : LastError) × (e'.last_error ≡ some error)
  pub rows_kept : e'.rows ≡ e.rows
  pub success_kept : e'.last_success_ts ≡ e.last_success_ts
  pub tick_kept : e'.tick_ts ≡ e.tick_ts
  pub inflight_kept : e'.inflight ≡ e.inflight

-- The run's rows are stored, and the failures before it are forgotten.
pub record Succeeded (py : Objects) (reply : Option (Result RunError Reply)) (tick : ℕ)
    (e e' : CachedMetric) : Type 0 where
  pub answer : Reply
  pub answered : reply ≡ some (ok answer)
  pub rows : List QueryResult
  pub built : build_rows py answer.rows ≡ ok rows
  pub stored : e'.rows ≡ some rows
  pub stored_tick : e'.tick_ts ≡ tick
  pub not_older : e.tick_ts ≤ tick
  pub up : e'.up ≡ true
  pub not_expired : e'.expired ≡ false
  pub forgotten : e'.consecutive_failures ≡ 0
  pub nodes : e'.failed_nodes ≡ answer.failed_nodes
  pub inflight_kept : e'.inflight ≡ e.inflight

-- The three ways in which a run can end, for the entry of its query.
pub data Outcome (py : Objects) (reply : Option (Result RunError Reply)) (tick : ℕ)
    (e e' : CachedMetric) : Type 0 where
  failure : Failed e e' → Outcome py reply tick e e'
  success : Succeeded py reply tick e e' → Outcome py reply tick e e'
  too_late : tick < e.tick_ts → e' ≡ e → Outcome py reply tick e e'

-- The entry of `key` in `after` is the outcome of a run.
abbrev pub EndsIn :
    Objects
    → Option (Result RunError Reply)
    → (tick : ℕ) → CachedMetric
    → (after : Entries) → String
    → Type 0
EndsIn py reply tick e after key =
    (e' : CachedMetric) × (get after key ≡ some e') × Outcome py reply tick e e'

module _ (py : Objects) (expire_after : ℕ) (es : Entries) (key : String) (e : CachedMetric)
    (here : get es key ≡ some e) where
  fail-Outcome :
      (reply : Option (Result RunError Reply)) (tick : ℕ) (error_type message : String)
      (failed : Option (List String)) (now : ℕ)
      → EndsIn py reply tick e (fail expire_after es key error_type message failed now) key
  fail-Outcome reply tick error_type message failed now = (
    failed_entry expire_after error_type message failed now e,
    get-fail expire_after es key error_type message failed now e here,
    failure (record {
      counted = refl;
      down = refl;
      explained = (_, refl);
      rows_kept = refl;
      success_kept = refl;
      tick_kept = refl;
      inflight_kept = refl;
    }),
  )

  deliver-Outcome :
      (reply : Reply) (duration tick now : ℕ)
      → EndsIn py
          (some (ok reply))
          tick
          e
          (deliver py expire_after es key reply duration tick now)
          key
  deliver-Outcome reply duration tick now = elim (Result-cases (build_rows py reply.rows)) [
    | inr (message, bad) ↦
        rw (deliver_err py expire_after es key reply duration tick now message bad)
          (fail-Outcome (some (ok reply)) tick "InvalidResult" message none now)
    | inl (rows, built) ↦
        rw (deliver_ok py expire_after es key reply duration tick now rows built)
          (elim (Bool-cases (ltb tick e.tick_ts)) [
            | inl old ↦ (
              e,
              rw (stale-update es key e rows duration tick now reply.failed_nodes here old) here,
              too_late (ground arith) refl,
            )
            | inr fresh ↦ (
              accept rows duration tick now reply.failed_nodes e,
              get-update es key e rows duration tick now reply.failed_nodes here (ground arith),
              success (record {
                answer = reply;
                answered = refl;
                rows = rows;
                built = built;
                stored = refl;
                stored_tick = refl;
                not_older = ground arith;
                up = refl;
                not_expired = refl;
                forgotten = refl;
                nodes = refl;
                inflight_kept = refl;
              }),
            )
          ])
  ]

  handle_error-Outcome :
      (reply : Option (Result RunError Reply)) (tick : ℕ) (is_system : Bool)
      (members : Option (List String)) (now : ℕ) (x : RunError)
      → EndsIn py reply tick e (handle_error expire_after es key is_system members now x) key
  unfolding handle_error
  handle_error-Outcome reply tick is_system members now (no_live_nodes message) =
      fail-Outcome reply tick "NoLiveNodes" message (if is_system then members else none) now
  handle_error-Outcome reply tick is_system members now (node_query message) =
      fail-Outcome reply tick "QueryError" message none now
  handle_error-Outcome reply tick is_system members now (node_connection message) =
      fail-Outcome reply tick "QueryError" message none now
  handle_error-Outcome reply tick is_system members now (other message) =
      fail-Outcome reply tick "QueryError" message none now

  missing-Outcome :
      (tick now : ℕ) (message : String)
      → EndsIn py none tick e (mark_failure es key "ConnectionNotReady" message now none) key
  missing-Outcome tick now message = (
    record e {
      up = false;
      consecutive_failures = e.consecutive_failures + 1;
      last_error =
          some (record { type = "ConnectionNotReady"; message = message; timestamp = now });
      waiting_reason = none;
    },
    get-mark_failure es key "ConnectionNotReady" message now none e here,
    failure (record {
      counted = refl;
      down = refl;
      explained = (_, refl);
      rows_kept = refl;
      success_kept = refl;
      tick_kept = refl;
      inflight_kept = refl;
    }),
  )

  -- Whatever a run of a registered query meets, its entry ends in one of three ways: the run is
  -- counted as one failure with its error, and the rows, the time and the tick of the last success
  -- stay; or its rows, which satisfy the value contract, are stored for its tick, which is not older
  -- than the stored one, and the query is up; or it is too late and nothing changes.
  pub execute-Outcome :
      (conn_ref query_type : String) (reply : Option (Result RunError Reply))
      (members : Option (List String)) (duration tick now : ℕ)
      → EndsIn py reply tick e
          (execute py expire_after es key conn_ref query_type reply members duration tick now)
          key
  unfolding execute
  execute-Outcome conn_ref query_type none members duration tick now = missing-Outcome tick now _
  execute-Outcome conn_ref query_type (some (err x)) members duration tick now =
      handle_error-Outcome (some (err x)) tick (query_type == "system") members now x
  execute-Outcome conn_ref query_type (some (ok reply)) members duration tick now =
      elim (Bool-cases
        (query_type == "system" && (not (nonempty reply.rows) && nonempty reply.failed_nodes))) [
          | inl unreachable ↦ rw unreachable (
              fail-Outcome (some (ok reply)) tick "NodesUnreachable"
                ("all nodes failed: " <> join ", " reply.failed_nodes) none now)
          | inr answered ↦ rw answered (deliver-Outcome reply duration tick now)
        ]
