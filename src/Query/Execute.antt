-- ===== src/Query/Execute.antt =====
-- `_execute` and `_fail` of src/promch/handlers/query.py: what a run of a query leaves in the
-- collector.
pub mod Failures
pub mod Outcomes
pub mod Expiry
use prometheus_ch_exporter.Prelude.{
  ℕ, String, ◌<>◌, ◌≡◌, Bool, true, false, not, ◌&&◌, Option, none, some, List, [], ◌∷◌, leb, ◌==◌,
  if◌then◌else◌, nonempty,
}
use prometheus_ch_exporter.Prelude.Result.{Result, ok, err}
use prometheus_ch_exporter.Prelude.Text.{repr, join}
use prometheus_ch_exporter.Cells.{Row, Objects}
use prometheus_ch_exporter.Collector.{Entries, snapshot, update, mark_failure, expire}
use prometheus_ch_exporter.Query.Rows.{build_rows}

-- The exceptions of a run, with their messages: those of src/promch/clickhouse/errors.py, and any
-- other.
pub data RunError : Type 0 where
  no_live_nodes node_query node_connection other : (message : String) → RunError

-- `SystemQueryResult`; a data query has no failed nodes.
pub record Reply : Type 0 where
  pub rows : List Row
  pub failed_nodes : List String

module _ (expire_after : ℕ) (es : Entries) (key : String) where
  -- `_fail`
  unfoldable pub fail :
      (error_type message : String) (failed : Option (List String)) (now : ℕ) → Entries
  unfolding mark_failure expire snapshot
  fail error_type message failed now =
      let marked = mark_failure es key error_type message now failed in
      elim (snapshot marked key) [
        | none ↦ marked
        | some snap ↦
            if leb expire_after snap.consecutive_failures then expire marked key else marked
      ]

  -- The exception handlers; `members` is `member_hosts()` of the connection, if it is still there.
  unfoldable pub handle_error :
      (is_system : Bool) (members : Option (List String)) (now : ℕ) → RunError → Entries
  unfolding fail
  handle_error is_system members now (no_live_nodes message) =
      fail "NoLiveNodes" message (if is_system then members else none) now
  handle_error is_system members now (node_query message) = fail "QueryError" message none now
  handle_error is_system members now (node_connection message) = fail "QueryError" message none now
  handle_error is_system members now (other message) = fail "QueryError" message none now

module _ (py : Objects) (expire_after : ℕ) (es : Entries) (key : String) where
  -- The rest of the run once the rows are there: `ValueError` is the handler's third case.
  unfoldable pub deliver : Reply → (duration tick now : ℕ) → Entries
  unfolding build_rows update fail
  deliver reply duration tick now = elim (build_rows py reply.rows) [
    | err message ↦ fail expire_after es key "InvalidResult" message none now
    | ok rows ↦ (update es key rows duration tick now reply.failed_nodes).0
  ]

  -- `reply` is what the connection answers, and none if there is no connection of that name.
  unfoldable pub execute :
      (conn_ref query_type : String) (reply : Option (Result RunError Reply))
      (members : Option (List String)) (duration tick now : ℕ)
      → Entries
  unfolding repr join deliver handle_error
  execute conn_ref query_type none members duration tick now =
      mark_failure es key "ConnectionNotReady" ("connection " <> (repr conn_ref <> " not found"))
        now none
  execute conn_ref query_type (some (err e)) members duration tick now =
      handle_error expire_after es key (query_type == "system") members now e
  execute conn_ref query_type (some (ok reply)) members duration tick now =
      if query_type == "system" && (not (nonempty reply.rows) && nonempty reply.failed_nodes)
      then fail expire_after es key "NodesUnreachable"
          ("all nodes failed: " <> join ", " reply.failed_nodes) none now
      else deliver reply duration tick now
