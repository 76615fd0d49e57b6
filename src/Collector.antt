-- ===== src/Collector.antt =====
-- src/promch/collector/metrics.py: the cached state of each query, and the operations that the
-- handlers call on it. Each operation is one step: it looks its entry up under the global lock and
-- changes it under the entry's lock, and a deletion between the two leaves what a deletion after
-- the change leaves. `time.time()`, `time.monotonic()` and `datetime.now` are arguments, in microseconds;
-- the result of a query is a float that nothing computes with, and stands for itself.
pub mod Collect
pub mod History
use prometheus_ch_exporter.Prelude.{
  ℕ, ◌+◌, ◌-◌, String, ◌≡◌, Bool, true, false, not, Option, none, some, List, [], ltb,
  if◌then◌else◌, length,
}
use prometheus_ch_exporter.Dict.{Dict, get, put, remove}

-- A float by its 64 bits.
pub record Float : Type 0 where
  pub bits : ℕ

pub record QueryResult : Type 0 where
  pub value : Float
  pub dynamic_labels : Dict String

-- `last_error`, with the time that its "timestamp" reads as.
pub record LastError : Type 0 where
  pub type : String
  pub message : String
  pub timestamp : ℕ

pub record CachedMetric : Type 0 where
  pub name : String
  pub help : String
  pub labels : Dict String
  pub rows : Option (List QueryResult)
  pub last_success_ts : Option ℕ
  pub last_duration : Option ℕ
  pub up : Bool
  pub expired : Bool
  pub consecutive_failures : ℕ
  pub last_error : Option LastError
  pub inflight : ℕ
  pub skipped_total : ℕ
  pub last_skip_ts : Option ℕ
  pub failed_nodes : List String
  pub waiting_reason : Option String
  pub invalid_reason : Option String
  pub tick_ts : ℕ

-- `CachedMetric(name=…, help=…, labels=…, invalid_reason=…)`
abbrev pub new_metric : String → String → Dict String → Option String → CachedMetric
new_metric name help labels invalid = record {
  name = name;
  help = help;
  labels = labels;
  rows = none;
  last_success_ts = none;
  last_duration = none;
  up = false;
  expired = false;
  consecutive_failures = 0;
  last_error = none;
  inflight = 0;
  skipped_total = 0;
  last_skip_ts = none;
  failed_nodes = [];
  waiting_reason = none;
  invalid_reason = invalid;
  tick_ts = 0;
}

-- `_entries`
abbrev pub Entries : Type 0
Entries = Dict CachedMetric

-- Looks the entry up, and changes it in place if it is there.
abbrev pub alter : (CachedMetric → CachedMetric) → Entries → String → Entries
alter f es key = elim (get es key) [ none ↦ es | some entry ↦ put es key (f entry) ]

-- The fields that an accepted result writes.
abbrev pub accept : List QueryResult → ℕ → ℕ → ℕ → List String → CachedMetric → CachedMetric
accept rows duration tick now failed entry = record entry {
  tick_ts = tick;
  rows = some rows;
  last_success_ts = some now;
  last_duration = some duration;
  up = true;
  expired = false;
  consecutive_failures = 0;
  failed_nodes = failed;
  waiting_reason = none;
}

module _ (es : Entries) (key : String) where
  unfoldable pub register : String → String → Dict String → Option String → Entries
  register name help labels invalid = elim (get es key) [
    | none ↦ put es key (new_metric name help labels invalid)
    | some entry ↦
        put es key
          (record entry { name = name; help = help; labels = labels; invalid_reason = invalid })
  ]

  unfoldable pub unregister : Entries
  unregister = remove es key

  -- The new state, and whether the result is a transition into the healthy state.
  unfoldable pub update :
      (rows : List QueryResult) (duration tick now : ℕ) (failed : List String) → Entries × Bool
  update rows duration tick now failed = elim (get es key) [
    | none ↦ (es, false)
    | some entry ↦
        if ltb tick entry.tick_ts
        then (es, false)
        else (put es key (accept rows duration tick now failed entry), not entry.up)
  ]

  -- `failed` is `failed_nodes`: None leaves the old list.
  unfoldable pub mark_failure :
      (error_type message : String) (now : ℕ) (failed : Option (List String)) → Entries
  mark_failure error_type message now failed =
      alter
        (λ entry. record entry {
          up = false;
          consecutive_failures = entry.consecutive_failures + 1;
          last_error = some (record { type = error_type; message = message; timestamp = now });
          waiting_reason = none;
          failed_nodes = elim failed [ none ↦ entry.failed_nodes | some nodes ↦ nodes ];
        })
        es key

  unfoldable pub mark_waiting : String → Entries
  mark_waiting reason = alter (λ entry. record entry { waiting_reason = some reason }) es key

  unfoldable pub expire : Entries
  expire = alter (λ entry. record entry { expired = true; up = false }) es key

  unfoldable pub inc_inflight : Entries
  inc_inflight = alter (λ entry. record entry { inflight = entry.inflight + 1 }) es key

  -- `max(0, inflight - 1)`: the subtraction of ℕ stops at 0.
  unfoldable pub dec_inflight : Entries
  dec_inflight = alter (λ entry. record entry { inflight = entry.inflight - 1 }) es key

  unfoldable pub inflight : ℕ
  inflight = elim (get es key) [ none ↦ 0 | some entry ↦ entry.inflight ]

  unfoldable pub invalid_reason : Option String
  invalid_reason = elim (get es key) [ none ↦ none | some entry ↦ entry.invalid_reason ]

  unfoldable pub record_skip : ℕ → Entries
  record_skip now =
      alter
        (λ entry. record entry { skipped_total = entry.skipped_total + 1; last_skip_ts = some now })
        es key

-- What the status reflector reads.
pub record Snapshot : Type 0 where
  pub up : Bool
  pub expired : Bool
  pub consecutive_failures : ℕ
  pub last_error : Option LastError
  pub last_success_ts : Option ℕ
  pub row_count : ℕ
  pub duration : Option ℕ
  pub skipped_total : ℕ
  pub last_skip_ts : Option ℕ
  pub failed_nodes : List String
  pub waiting_reason : Option String
  pub invalid_reason : Option String

abbrev pub row_list : CachedMetric → List QueryResult
row_list entry = elim entry.rows [ none ↦ [] | some rows ↦ rows ]

abbrev pub snapshot_of : CachedMetric → Snapshot
snapshot_of entry = record {
  up = entry.up;
  expired = entry.expired;
  consecutive_failures = entry.consecutive_failures;
  last_error = entry.last_error;
  last_success_ts = entry.last_success_ts;
  row_count = length (row_list entry);
  duration = entry.last_duration;
  skipped_total = entry.skipped_total;
  last_skip_ts = entry.last_skip_ts;
  failed_nodes = entry.failed_nodes;
  waiting_reason = entry.waiting_reason;
  invalid_reason = entry.invalid_reason;
}

unfoldable pub snapshot : Entries → String → Option Snapshot
snapshot es key = elim (get es key) [ none ↦ none | some entry ↦ some (snapshot_of entry) ]
