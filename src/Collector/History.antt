-- ===== src/Collector/History.antt =====
-- Sequences of calls on the collector of src/promch/collector/metrics.py, in any interleaving of
-- the queries, and the same calls as one query alone would see them.
pub mod Isolation
pub mod Freshness
pub mod Failures
use prometheus_ch_exporter.Prelude.{
  ℕ, ◌+◌, ◌-◌, String, Bool, true, false, Option, none, some, List, [], ◌∷◌, ◌==◌, ltb,
  if◌then◌else◌,
}
use prometheus_ch_exporter.Dict.{Dict}
use prometheus_ch_exporter.Collector.{
  QueryResult, CachedMetric, Entries, new_metric, accept, register, unregister, update,
  mark_failure, mark_waiting, expire, inc_inflight, dec_inflight, record_skip,
}

-- A call of one operation, with its arguments but for the key.
pub data Op : Type 0 where
  registered : (name help : String) (labels : Dict String) (invalid : Option String) → Op
  unregistered : Op
  updated : (rows : List QueryResult) (duration tick now : ℕ) (failed : List String) → Op
  failed : (error_type message : String) (now : ℕ) (nodes : Option (List String)) → Op
  waiting : (reason : String) → Op
  expired started finished : Op
  skipped : (now : ℕ) → Op

unfoldable pub perform : Entries → String → Op → Entries
unfolding register unregister update mark_failure mark_waiting expire inc_inflight dec_inflight
    record_skip
perform es key (registered name help labels invalid) = register es key name help labels invalid
perform es key unregistered = unregister es key
perform es key (updated rows duration tick now nodes) =
    (update es key rows duration tick now nodes).0
perform es key (failed error_type message now nodes) =
    mark_failure es key error_type message now nodes
perform es key (waiting reason) = mark_waiting es key reason
perform es key expired = expire es key
perform es key started = inc_inflight es key
perform es key finished = dec_inflight es key
perform es key (skipped now) = record_skip es key now

unfoldable pub run : Entries → List (String × Op) → Entries
run es [] = es
run es ((key, op) ∷ calls) = run (perform es key op) calls

-- One query alone: what an operation other than a registration makes of an entry.
abbrev pub step : CachedMetric → Op → Option CachedMetric
step e (registered name help labels invalid) =
    some (record e { name = name; help = help; labels = labels; invalid_reason = invalid })
step e unregistered = none
step e (updated rows duration tick now nodes) =
    some (if ltb tick e.tick_ts then e else accept rows duration tick now nodes e)
step e (failed error_type message now nodes) = some (record e {
  up = false;
  consecutive_failures = e.consecutive_failures + 1;
  last_error = some (record { type = error_type; message = message; timestamp = now });
  waiting_reason = none;
  failed_nodes = elim nodes [ none ↦ e.failed_nodes | some l ↦ l ];
})
step e (waiting reason) = some (record e { waiting_reason = some reason })
step e expired = some (record e { expired = true; up = false })
step e started = some (record e { inflight = e.inflight + 1 })
step e finished = some (record e { inflight = e.inflight - 1 })
step e (skipped now) =
    some (record e { skipped_total = e.skipped_total + 1; last_skip_ts = some now })

-- A query that is not registered ignores all calls but its registration.
abbrev pub react : Option CachedMetric → Op → Option CachedMetric
react none (registered name help labels invalid) = some (new_metric name help labels invalid)
react none _ = none
react (some e) op = step e op

unfoldable pub react_all : Option CachedMetric → List Op → Option CachedMetric
react_all e [] = e
react_all e (op ∷ ops) = react_all (react e op) ops

-- The calls on one key, in their order.
unfoldable pub calls_on : String → List (String × Op) → List Op
calls_on key [] = []
calls_on key ((j, op) ∷ calls) = if j == key then op ∷ calls_on key calls else calls_on key calls
