-- ===== src/Tests/Metrics.antt =====
-- The collector (src/promch/collector/metrics.py) with two queries that share a metric name.
use mathlib.Core.List.{Perm}
use prometheus_ch_exporter.Prelude.{
  String, ◌≡◌, refl, true, not, ◌&&◌, ◌||◌, none, some, List, [], ◌∷◌, arith, ◌==◌, if◌then◌else◌,
  any_of, for_each, keep_if, nonempty,
}
use prometheus_ch_exporter.Dict.{get, get_or, IsUnique}
use prometheus_ch_exporter.Collector.{QueryResult, CachedMetric, new_metric, Entries, update}
use prometheus_ch_exporter.Collector.Collect.{
  number, is_valid, sys_name, user_family, user_families, static_keys, dynamic_keys, row_sample,
  collect,
}
use prometheus_ch_exporter.Collector.Collect.Grouping.{
  by_name, family_series, served_series, user_families-perm,
}
use prometheus_ch_exporter.Collector.Collect.Labels.{as_dict, has_column, declares, series_label}
use prometheus_ch_exporter.Collector.Collect.System.{rest_of, sample_values}
use prometheus_ch_exporter.Collector.Collect.Leader.{names, takes_leader, collect-leader}
use prometheus_ch_exporter.Prelude.{contains}
use prometheus_ch_exporter.Collector.History.{
  Op, updated, failed, started, skipped, run, react_all, calls_on,
}
use prometheus_ch_exporter.Collector.History.Isolation.{get-run}
use prometheus_ch_exporter.Collector.History.Freshness.{IsNewest, run-IsNewest}
use prometheus_ch_exporter.Collector.History.Failures.{
  is_failure, is_expiry, count_failures, update-run-Since,
}

abbrev pub web_row : QueryResult
web_row = record { value = record { bits = 7 }; dynamic_labels = ("app", "web") ∷ [] }

abbrev pub api_row : QueryResult
api_row = record { value = record { bits = 9 }; dynamic_labels = ("app", "api") ∷ [] }

abbrev pub hits : CachedMetric
hits = record (new_metric "clickhouse_hits" "Hits" (("team", "core") ∷ []) none) {
  rows = some (web_row ∷ []);
  up = true;
  tick_ts = 5;
}

abbrev pub quiet : CachedMetric
quiet = new_metric "clickhouse_hits" "Hits" [] none

abbrev pub two_queries : Entries
two_queries = ("ns/hits", hits) ∷ ("ns/quiet", quiet) ∷ []

-- A result of tick 9, then one of tick 7 that is late, and a failure of the other query.
abbrev late_results : List (String × Op)
late_results =
    ("ns/hits", updated (api_row ∷ []) 100 9 1000 [])
    ∷ ("ns/quiet", failed "QueryError" "boom" 1100 none)
    ∷ ("ns/hits", updated (web_row ∷ []) 900 7 1200 [])
    ∷ []

run-IsNewest_example :
    (e' : CachedMetric) × (get (run two_queries late_results) "ns/hits" ≡ some e')
    × IsNewest hits e' (calls_on "ns/hits" late_results)
unfolding get calls_on
run-IsNewest_example = run-IsNewest two_queries late_results "ns/hits" hits refl (tt, (tt, tt))

get-run_example :
    get (run two_queries late_results) "ns/quiet"
    ≡ react_all (get two_queries "ns/quiet") (calls_on "ns/quiet" late_results)
get-run_example = get-run two_queries late_results "ns/quiet"

abbrev failures : List (String × Op)
failures =
    ("ns/hits", started)
    ∷ ("ns/hits", failed "QueryError" "boom" 1100 none)
    ∷ ("ns/hits", skipped 1200)
    ∷ []

update-run-Since_example :
    (e' : CachedMetric) × (get
        (run (update two_queries "ns/hits" (api_row ∷ []) 100 9 1000 []).0 failures)
        "ns/hits"
      ≡ some e')
    × (e'.consecutive_failures ≡ count_failures (calls_on "ns/hits" failures))
    × (e'.up
        ≡ not (
            any_of is_failure (calls_on "ns/hits" failures)
            || any_of is_expiry (calls_on "ns/hits" failures)))
    × (e'.expired ≡ any_of is_expiry (calls_on "ns/hits" failures))
    × (e'.rows ≡ some (api_row ∷ []))
    × (e'.last_success_ts ≡ some 1000)
unfolding get calls_on
update-run-Since_example =
    update-run-Since two_queries failures "ns/hits" hits (api_row ∷ []) 100 9 1000 [] refl
      (omega arith) (tt, (tt, (tt, tt)))

user_families-perm_example :
    IsUnique (by_name (user_families (keep_if is_valid two_queries)))
    × Perm
        (for_each family_series (user_families (keep_if is_valid two_queries)))
        (served_series two_queries)
user_families-perm_example = user_families-perm two_queries

series_label_example :
    get
      (as_dict []
        (user_family ("clickhouse_hits", two_queries)).label_names
        (row_sample
          (static_keys two_queries)
          (dynamic_keys two_queries)
          ("ns/hits", hits)
          web_row).label_values)
      "app"
    ≡ (if "query_key" == "app"
        then some "ns/hits"
        else if has_column two_queries "app"
        then some (get_or web_row.dynamic_labels "app" "")
        else if declares two_queries "app"
        then some (get_or hits.labels "app" "")
        else none)
series_label_example = series_label "clickhouse_hits" two_queries ("ns/hits", hits) web_row "app"

-- A query that takes the name of the leader metric.
abbrev usurper : Entries
usurper = ("ns/hits", record hits { name = "clickhouse_leader" }) ∷ []

collect-leader_example :
    let rest = rest_of (collect "clickhouse" true usurper) in
    (sample_values (collect "clickhouse" true usurper)
      ≡ (sys_name "clickhouse" "leader", number (if true then 1 else 0) ∷ []) ∷ sample_values rest)
    × (nonempty rest ≡ (true && nonempty usurper))
    × (contains (names rest) (sys_name "clickhouse" "leader")
        ≡ (true && any_of (takes_leader "clickhouse") usurper))
collect-leader_example = collect-leader "clickhouse" true usurper

-- The name stands twice in its scrape.
usurper_shown : any_of (takes_leader "clickhouse") usurper ≡ true
unfolding sys_name
usurper_shown = refl
