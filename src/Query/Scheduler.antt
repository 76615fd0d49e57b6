-- ===== src/Query/Scheduler.antt =====
-- One pass of the loop of `_run_scheduler` in src/promch/handlers/query.py. Connections and clocks
-- are arguments; the wait until the next pass is kopf's and asyncio's.
pub mod Concurrency
use prometheus_ch_exporter.Prelude.{
  ℕ, zero, suc, String, ◌<>◌, ◌≡◌, Bool, true, false, not, Option, none, some, leb, nat_eq, ◌==◌,
  if◌then◌else◌, is_some, truthy,
}
use prometheus_ch_exporter.Prelude.Result.{Result, ok, err, ◌>>=◌}
use prometheus_ch_exporter.Prelude.Text.{repr}
use prometheus_ch_exporter.Collector.{
  Entries, inflight, invalid_reason, mark_waiting, record_skip, inc_inflight,
}
use prometheus_ch_exporter.Duration.{parse_duration_seconds}
use prometheus_ch_exporter.Config.{
  OperatorConfig, default_interval_seconds, default_timeout_seconds,
}

-- The part of the resource's `spec` that the loop reads; a key that is missing is `none`.
pub record QuerySpec : Type 0 where
  pub interval : Option String
  pub timeout : Option String
  pub max_concurrent : Option ℕ
  pub query_type : Option String
  pub connection_ref : String
  pub query : String

-- The arguments of `_execute`.
pub record Task : Type 0 where
  pub key : String
  pub conn_ref : String
  pub query_type : String
  pub sql : String
  pub timeout : ℕ
  pub tick_ts : ℕ

-- `_resource_key`
unfoldable pub resource_key : Option String → String → String
resource_key none name = "/" <> name
resource_key (some namespace) name = namespace <> ("/" <> name)

-- `_resolve`: None and the empty text give the default.
unfoldable pub resolve : Option String → Result String ℕ → Result String ℕ
resolve none default_seconds = default_seconds
resolve (some raw) default_seconds =
    if raw == "" then default_seconds else parse_duration_seconds raw

-- `spec.get("maxConcurrent") or config.default_max_concurrent`
unfoldable pub concurrency : QuerySpec → OperatorConfig → ℕ
concurrency spec config = elim spec.max_concurrent [
  | none ↦ config.default_max_concurrent
  | some n ↦ if nat_eq n 0 then config.default_max_concurrent else n
]

-- `conn is None or not conn.ready`, where a connection is whether it is ready.
abbrev pub is_ready : Option Bool → Bool
is_ready none = false
is_ready (some ready) = ready

abbrev pub query_kind : QuerySpec → String
query_kind spec = elim spec.query_type [ none ↦ "data" | some t ↦ t ]

unfoldable pub waiting_text : String → String
unfolding repr
waiting_text conn_ref =
    "Waiting for connection "
    <> (repr conn_ref <> " to complete its first topology/liveness check after operator start")

-- The new state, and the execution that is started, if any.
unfoldable pub pass :
    (es : Entries) (key : String) (spec : QuerySpec) (config : OperatorConfig) (conn : Option Bool)
    (wall_time loop_time timeout : ℕ)
    → Entries × Option Task
unfolding concurrency waiting_text
pass es key spec config conn wall_time loop_time timeout =
    if is_some (invalid_reason es key)
    then (es, none)
    else if not (is_ready conn)
    then (mark_waiting es key (waiting_text spec.connection_ref), none)
    else if leb (concurrency spec config) (inflight es key)
    then (record_skip es key wall_time, none)
    else (
      inc_inflight es key,
      some (record {
        key = key;
        conn_ref = spec.connection_ref;
        query_type = query_kind spec;
        sql = spec.query;
        timeout = timeout;
        tick_ts = loop_time;
      }),
    )

-- A pass reads its durations first, and a malformed one ends the daemon with a ValueError.
unfoldable pub scheduler_pass :
    (es : Entries) (key : String) (spec : QuerySpec) (config : OperatorConfig) (conn : Option Bool)
    (wall_time loop_time : ℕ)
    → Result String (Entries × Option Task)
unfolding resolve pass default_interval_seconds default_timeout_seconds
scheduler_pass es key spec config conn wall_time loop_time = do
  interval ← resolve spec.interval (default_interval_seconds config)
  timeout ← resolve spec.timeout (default_timeout_seconds config)
  ok (pass es key spec config conn wall_time loop_time timeout)
