-- ===== src/Query/Scheduler/Concurrency/Inflight.antt =====
-- The in-flight counter of src/promch/collector/metrics.py under each call that a scheduler or a run
-- of src/promch/handlers/query.py makes.
use prometheus_ch_exporter.Prelude.{
  ℕ, ◌+◌, ◌≤◌, ◌-◌, String, ◌≡◌, inl, inr, Bool, true, not, ◌&&◌, Option, none, some, List, arith,
  ◌==◌, eq_iff, if◌then◌else◌, Bool-cases, nonempty,
}
use prometheus_ch_exporter.Prelude.Result.{Result, ok, err, Result-cases}
use prometheus_ch_exporter.Cells.{Objects}
use prometheus_ch_exporter.Dict.{Dict, has}
use prometheus_ch_exporter.Dict.Laws.{get-put, get-remove}
use prometheus_ch_exporter.Collector.{
  QueryResult, Entries, inflight, register, unregister, update, mark_failure, mark_waiting,
  inc_inflight, dec_inflight, record_skip,
}
use prometheus_ch_exporter.Query.Rows.{build_rows}
use prometheus_ch_exporter.Query.Execute.{
  RunError, no_live_nodes, node_query, node_connection, other, Reply, fail, deliver, handle_error,
  execute,
}
use prometheus_ch_exporter.Query.Execute.Failures.{deliver_ok, deliver_err}

module _ (es : Entries) (key j : String) where
  pub inflight-inc :
      has es j ≡ true
      → inflight (inc_inflight es key) j ≡ (if key == j then 1 else 0) + inflight es j
  unfolding inflight inc_inflight
  inflight-inc h = grind (arith, eq_iff key j, get-put)

  pub inflight-inc_le :
      inflight (inc_inflight es key) j ≤ (if key == j then 1 else 0) + inflight es j
  unfolding inflight inc_inflight
  inflight-inc_le = grind (arith, eq_iff key j, get-put)

  pub has-unregister : has (unregister es key) j ≡ (not (key == j) && has es j)
  unfolding unregister
  has-unregister = grind (arith, eq_iff key j, get-remove)

  pub inflight-dec : inflight (dec_inflight es key) j ≡ inflight es j - (if key == j then 1 else 0)
  unfolding inflight dec_inflight
  inflight-dec = grind (arith, eq_iff key j, get-put)

  pub inflight-skip : (now : ℕ) → inflight (record_skip es key now) j ≡ inflight es j
  unfolding inflight record_skip
  inflight-skip now = grind (arith, eq_iff key j, get-put)

  pub inflight-waiting : (reason : String) → inflight (mark_waiting es key reason) j ≡ inflight es j
  unfolding inflight mark_waiting
  inflight-waiting reason = grind (arith, eq_iff key j, get-put)

  pub inflight-register :
      (name help : String) (labels : Dict String) (invalid : Option String)
      → inflight (register es key name help labels invalid) j ≡ inflight es j
  unfolding inflight register
  inflight-register name help labels invalid = grind (arith, eq_iff key j, get-put)

  pub inflight-unregister : inflight (unregister es key) j ≡ (if key == j then 0 else inflight es j)
  unfolding inflight unregister
  inflight-unregister = grind (arith, eq_iff key j, get-remove)

  inflight-mark_failure :
      (error_type message : String) (now : ℕ) (failed : Option (List String))
      → inflight (mark_failure es key error_type message now failed) j ≡ inflight es j
  unfolding inflight mark_failure
  inflight-mark_failure error_type message now failed = grind (arith, eq_iff key j, get-put)

  inflight-fail :
      (expire_after : ℕ) (error_type message : String) (failed : Option (List String)) (now : ℕ)
      → inflight (fail expire_after es key error_type message failed now) j ≡ inflight es j
  unfolding inflight fail
  inflight-fail expire_after error_type message failed now = grind (arith, eq_iff key j, get-put)

  inflight-update :
      (rows : List QueryResult) (duration tick now : ℕ) (nodes : List String)
      → inflight (update es key rows duration tick now nodes).0 j ≡ inflight es j
  unfolding inflight update
  inflight-update rows duration tick now nodes = grind (arith, eq_iff key j, get-put)

  inflight-deliver :
      (py : Objects) (expire_after : ℕ) (reply : Reply) (duration tick now : ℕ)
      → inflight (deliver py expire_after es key reply duration tick now) j ≡ inflight es j
  inflight-deliver py expire_after reply duration tick now =
      elim (Result-cases (build_rows py reply.rows)) [
        | inl (rows, built) ↦
            rw (deliver_ok py expire_after es key reply duration tick now rows built)
              (inflight-update rows duration tick now reply.failed_nodes)
        | inr (message, bad) ↦
            rw (deliver_err py expire_after es key reply duration tick now message bad)
              (inflight-fail expire_after "InvalidResult" message none now)
      ]

  inflight-handle_error :
      (expire_after : ℕ) (is_system : Bool) (members : Option (List String)) (now : ℕ)
      (x : RunError)
      → inflight (handle_error expire_after es key is_system members now x) j ≡ inflight es j
  unfolding handle_error
  inflight-handle_error expire_after is_system members now (no_live_nodes message) =
      inflight-fail expire_after "NoLiveNodes" message (if is_system then members else none) now
  inflight-handle_error expire_after is_system members now (node_query message) =
      inflight-fail expire_after "QueryError" message none now
  inflight-handle_error expire_after is_system members now (node_connection message) =
      inflight-fail expire_after "QueryError" message none now
  inflight-handle_error expire_after is_system members now (other message) =
      inflight-fail expire_after "QueryError" message none now

  pub inflight-execute :
      (py : Objects) (expire_after : ℕ) (conn_ref query_type : String)
      (reply : Option (Result RunError Reply)) (members : Option (List String))
      (duration tick now : ℕ)
      → inflight
          (execute py expire_after es key conn_ref query_type reply members duration tick now)
          j
        ≡ inflight es j
  unfolding execute
  inflight-execute py expire_after conn_ref query_type none members duration tick now =
      inflight-mark_failure "ConnectionNotReady" _ now none
  inflight-execute py expire_after conn_ref query_type (some (err x)) members duration tick now =
      inflight-handle_error expire_after (query_type == "system") members now x
  inflight-execute py expire_after conn_ref query_type (some (ok reply)) members duration tick now =
      elim (Bool-cases
        (query_type == "system" && (not (nonempty reply.rows) && nonempty reply.failed_nodes))) [
          | inl unreachable ↦
              rw unreachable (inflight-fail expire_after "NodesUnreachable" _ none now)
          | inr answered ↦ rw answered (inflight-deliver py expire_after reply duration tick now)
        ]
