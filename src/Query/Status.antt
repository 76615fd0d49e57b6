-- ===== src/Query/Status.antt =====
-- `derive_status` of src/promch/handlers/query_status.py, with its helpers, and the patch that the
-- reflector of src/promch/handlers/query.py makes of it. Times are microseconds: the ISO texts in
-- UTC, which the program compares and sorts, stand in the order of their times. Each reading of
-- `datetime.now` is the next value of `clock`.
pub mod Phases
pub mod Conditions
pub mod Ordering
pub mod Repeated
pub mod Followed
pub mod Settled
use prometheus_ch_exporter.Prelude.{
  ℕ, ◌+◌, ◌/◌, String, ◌<>◌, ◌≡◌, Bool, true, false, not, ◌&&◌, ◌||◌, Option, none, some, List, [],
  ◌∷◌, ltb, leb, ◌==◌, if◌then◌else◌, truthy, is_some, nonempty, contains,
}
use prometheus_ch_exporter.Prelude.Text.{join}
use prometheus_ch_exporter.Query.Condition.{Condition, Setting, set_condition, sort_conditions}
use prometheus_ch_exporter.Dict.{Dict, get, put, values}
use prometheus_ch_exporter.Collector.{LastError, Snapshot}

pub data Phase : Type 0 where
  pending healthy degraded failing expired invalid : Phase

pub record LastSuccess : Type 0 where
  pub timestamp : ℕ
  pub row_count : ℕ
  pub duration_ms : ℕ

-- The `.status` of a resource; a key that is missing or null is `none`.
pub record Status : Type 0 where
  pub phase : Option Phase
  pub invalid_reason : Option String
  pub consecutive_failures : Option ℕ
  pub skipped_ticks : Option ℕ
  pub last_success : Option LastSuccess
  pub last_error : Option LastError
  pub failed_nodes : Option (List String)
  pub conditions : Option (List Condition)

-- What `derive_status` returns for a query that runs.
pub record Running : Type 0 where
  pub phase : Phase
  pub consecutive_failures : ℕ
  pub skipped_ticks : ℕ
  pub last_success : Option LastSuccess
  pub last_error : Option LastError
  pub failed_nodes : List String
  pub conditions : List Condition

pub data Desired : Type 0 where
  waiting_for_collector : Desired
  misconfigured : (reason : String) (conditions : List Condition) → Desired
  running : Running → Desired

abbrev pub is_availability_error : String → Bool
is_availability_error type =
    contains ("NoLiveNodes" ∷ "ConnectionNotReady" ∷ "NodesUnreachable" ∷ []) type

-- `age < ttl`, with both sides moved so that no difference is negative.
unfoldable pub fresh_error : Option LastError → (now ttl : ℕ) → Option LastError
fresh_error none now ttl = none
fresh_error (some e) now ttl = if ltb now (e.timestamp + ttl) then some e else none

abbrev pub current_conditions : Status → List Condition
current_conditions s = elim s.conditions [ none ↦ [] | some cs ↦ cs ]

unfoldable pub phase_of : Snapshot → Phase
phase_of snap =
    if snap.expired
    then expired
    else if snap.up
    then (if nonempty snap.failed_nodes then degraded else healthy)
    else if truthy snap.waiting_reason
    then pending
    else elim snap.last_error [
      | none ↦ pending
      | some e ↦
          if is_availability_error e.type && not (is_some snap.last_success_ts)
          then pending
          else failing
    ]

-- A skip at or after the last success.
unfoldable pub is_behind : (last_success last_skip : Option ℕ) → Bool
is_behind ls none = false
is_behind none (some lk) = true
is_behind (some ls) (some lk) = leb ls lk

abbrev pub error_type : Option LastError → String
error_type none = "Unknown"
error_type (some e) = e.type

abbrev pub error_message : Option LastError → String
error_message none = ""
error_message (some e) = e.message

abbrev pub reason_text : Option String → String
reason_text none = ""
reason_text (some r) = r

abbrev pub misconfiguration : Snapshot → Setting
misconfiguration snap = record {
  status = false;
  reason = "InvalidConfiguration";
  message = reason_text snap.invalid_reason;
}

unfoldable pub query_succeeded : Snapshot → Setting
query_succeeded snap = record {
  status = snap.up;
  reason = if snap.up then "QueryOK" else error_type snap.last_error;
  message = if snap.up then "Last query succeeded" else error_message snap.last_error;
}

unfoldable pub keeping_up : Snapshot → Setting
unfolding is_behind
keeping_up snap =
    let behind = is_behind snap.last_success_ts snap.last_skip_ts in
    record {
      status = not behind;
      reason = if behind then "MaxConcurrentReached" else "OnSchedule";
      message =
          if behind
          then "Query runs longer than interval x maxConcurrent; ticks skipped"
          else "Keeping up";
    }

unfoldable pub ready : Snapshot → Setting
ready snap =
    let waiting = truthy snap.waiting_reason in
    record {
      status = not waiting;
      reason = if waiting then "WaitingForConnection" else "Ready";
      message = if waiting then reason_text snap.waiting_reason else "Query is running";
    }

unfoldable pub all_nodes_responding : Snapshot → Setting
unfolding join
all_nodes_responding snap =
    let failed = nonempty snap.failed_nodes in
    record {
      status = not failed;
      reason = if failed then "NodesUnreachable" else "AllResponding";
      message =
          if failed
          then "nodes not responding: " <> join ", " snap.failed_nodes
          else "All cluster nodes responded";
    }

-- The four conditions, in the order in which they are set.
unfoldable pub running_conditions : Snapshot → List Condition → (clock : ℕ → ℕ) → List Condition
unfolding set_condition query_succeeded keeping_up ready all_nodes_responding
running_conditions snap cs₀ clock =
    let cs₁ = set_condition cs₀ (clock 1) "QuerySucceeded" (query_succeeded snap) in
    let cs₂ = set_condition cs₁ (clock 2) "KeepingUp" (keeping_up snap) in
    let cs₃ = set_condition cs₂ (clock 3) "Ready" (ready snap) in
    set_condition cs₃ (clock 4) "AllNodesResponding" (all_nodes_responding snap)

abbrev pub success_of : Snapshot → Option LastSuccess
success_of snap = elim snap.last_success_ts [
  | none ↦ none
  | some ts ↦ some (record {
    timestamp = ts;
    row_count = snap.row_count;
    duration_ms = elim snap.duration [ none ↦ 0 | some d ↦ d / 1000 ];
  })
]

-- `ttl` is `last_error_ttl_seconds`.
unfoldable pub derive_status :
    Option Snapshot → (current : Status) (ttl : ℕ) (clock : ℕ → ℕ) → Desired
unfolding phase_of running_conditions fresh_error sort_conditions
derive_status none current ttl clock = waiting_for_collector
derive_status (some snap) current ttl clock =
    if truthy snap.invalid_reason
    then misconfigured (reason_text snap.invalid_reason) (
        sort_conditions
          (set_condition (current_conditions current) (clock 0) "Valid" (misconfiguration snap)))
    else running (record {
      phase = phase_of snap;
      consecutive_failures = snap.consecutive_failures;
      skipped_ticks = snap.skipped_total;
      last_success = success_of snap;
      last_error = fresh_error snap.last_error (clock 0) ttl;
      failed_nodes = snap.failed_nodes;
      conditions = sort_conditions (running_conditions snap (current_conditions current) clock);
    })

-- The status after the patch of the reflector: each key of the desired status has its value, a
-- null removes the key, and every other key stays.
unfoldable pub patched : Status → Desired → Status
patched s waiting_for_collector = record s { phase = some pending }
patched s (misconfigured reason cs) = record s {
  phase = some invalid;
  invalid_reason = some reason;
  conditions = some cs;
}
patched s (running r) = record {
  phase = some r.phase;
  invalid_reason = s.invalid_reason;
  consecutive_failures = some r.consecutive_failures;
  skipped_ticks = some r.skipped_ticks;
  last_success = elim r.last_success [ none ↦ s.last_success | some l ↦ some l ];
  last_error = r.last_error;
  failed_nodes = some r.failed_nodes;
  conditions = some r.conditions;
}
