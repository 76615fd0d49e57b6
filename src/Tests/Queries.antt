-- ===== src/Tests/Queries.antt =====
-- Runs of queries (src/promch/handlers/query.py and query_status.py): a connection whose driver
-- answers rows or raises, and passes of the scheduler.
use prometheus_ch_exporter.Prelude.{
  ℕ, List, nat_eq, String, ◌≡◌, refl, true, not, ◌&&◌, ◌||◌, Option, none, some, [], ◌∷◌, arith,
  any_of, nonempty, is_some, length, ltb,
}
use prometheus_ch_exporter.Prelude.Result.{ok, is_err}
use prometheus_ch_exporter.Dict.{get, remove, put}
use prometheus_ch_exporter.Cells.{Cell, text, object, Row, Objects}
use prometheus_ch_exporter.Collector.{
  Float, QueryResult, CachedMetric, inflight, invalid_reason, inc_inflight, update,
}
use prometheus_ch_exporter.Collector.Collect.{is_served}
use prometheus_ch_exporter.Config.{defaults}
use prometheus_ch_exporter.Query.Naming.{MetricSpec, apply_prefix}
use prometheus_ch_exporter.Query.Naming.Prefix.{IsNamespaced, apply_prefix-IsNamespaced}
use prometheus_ch_exporter.Query.Rows.{build_rows}
use prometheus_ch_exporter.Query.Rows.Contract.{
  is_bad, AllReadings, is_err-build_rows, build_rows-AllReadings,
}
use prometheus_ch_exporter.Query.Execute.{Reply, execute}
use prometheus_ch_exporter.Query.Execute.Outcomes.{EndsIn, execute-Outcome}
use prometheus_ch_exporter.Query.Execute.Expiry.{
  Failure, reported, not_found, last_reported, fail_all, expiry_exact,
}
use prometheus_ch_exporter.Query.Lifecycle.{register_query}
use prometheus_ch_exporter.Query.Lifecycle.Gated.{
  IsRegistered, is_misconfigured, pass-register_query,
}
use prometheus_ch_exporter.Query.Scheduler.Concurrency.Covered.{
  IsCovered, Reach-IsCovered, recreated_exceeds,
}
use prometheus_ch_exporter.Query.Scheduler.{QuerySpec, pass, concurrency, resource_key}
use prometheus_ch_exporter.Query.Scheduler.Concurrency.{
  System, passed, started, Reach, here, next, Kept, since, still, overlap,
}
use prometheus_ch_exporter.Query.Scheduler.Concurrency.Overlap.{IsCounted, Kept-IsCounted}
use prometheus_ch_exporter.Tests.Metrics.{hits, two_queries, api_row}

-- Objects of the driver: the object `n` is the float of these bits, and no text is a number.
abbrev numbers : Cell → Option Float
numbers (text s) = none
numbers (object n) = some (record { bits = n })

abbrev py : Objects
py = record { to_float = numbers; str_object = λ n. "object"; repr_object = λ n. "object" }

abbrev good_row : Row
good_row = ("value", object 3) ∷ ("app", text "web") ∷ []

abbrev bad_row : Row
bad_row = ("value", text "many") ∷ []

is_err-build_rows_example :
    is_err (build_rows py (good_row ∷ bad_row ∷ [])) ≡ any_of (is_bad py) (good_row ∷ bad_row ∷ [])
is_err-build_rows_example = is_err-build_rows py (good_row ∷ bad_row ∷ [])

abbrev good_result : QueryResult
good_result = record { value = record { bits = 3 }; dynamic_labels = ("app", "web") ∷ [] }

build_rows-AllReadings_example : AllReadings py (good_row ∷ []) (good_result ∷ [])
unfolding build_rows get remove
build_rows-AllReadings_example = build_rows-AllReadings py (good_row ∷ []) (good_result ∷ []) refl

abbrev one_row : Reply
one_row = record { rows = good_row ∷ []; failed_nodes = [] }

execute-Outcome_example :
    EndsIn py
      (some (ok one_row))
      9
      hits
      (execute py 3 two_queries "ns/hits" "main" "data" (some (ok one_row)) none 100 9 2000)
      "ns/hits"
unfolding get
execute-Outcome_example =
    execute-Outcome py 3 two_queries "ns/hits" hits refl "main" "data" (some (ok one_row)) none 100
      9 2000

abbrev boom : Failure
boom = reported "QueryError" "boom" none 2100

-- A failure that expires nothing, and two after which the last reported one is the third.
abbrev three : List Failure
three = not_found "connection 'main' not found" 2090 ∷ boom ∷ boom ∷ []

expiry_exact_example :
    (e' : CachedMetric) × (get
        (fail_all 3 "ns/hits" (update two_queries "ns/hits" (api_row ∷ []) 100 9 2000 []).0 three)
        "ns/hits"
      ≡ some e')
    × (e'.consecutive_failures ≡ length three)
    × (e'.rows ≡ some (api_row ∷ []))
    × (is_served ("ns/hits", e') ≡ (
        (nat_eq (last_reported three) 0 || ltb (last_reported three) 3) && nonempty (api_row ∷ [])))
unfolding get
expiry_exact_example =
    expiry_exact 3 "ns/hits" two_queries hits (api_row ∷ []) 100 9 2000 [] three refl (omega arith)

abbrev spec : QuerySpec
spec = record {
  interval = none;
  timeout = none;
  max_concurrent = some 2;
  query_type = none;
  connection_ref = "main";
  query = "SELECT 1 AS value";
}

abbrev idle : System
idle = record { entries = two_queries; tasks = [] }

abbrev busy : System
busy = record {
  entries = (pass two_queries "ns/hits" spec defaults (some true) 1000 9 30).0;
  tasks = started (pass two_queries "ns/hits" spec defaults (some true) 1000 9 30).1 "ns/hits" [];
}

abbrev two_at_most : String → ℕ
two_at_most key = 2

first-Kept : Kept two_at_most "ns/hits" idle busy
unfolding get concurrency pass invalid_reason inflight inc_inflight put
first-Kept =
    still (since refl)
      (passed "ns/hits" spec defaults (some true) 1000 9 30 (omega arith) refl refl) refl

idle-IsCounted : IsCounted two_at_most idle "ns/hits"
unfolding get inflight
idle-IsCounted = record { counted = refl; bounded = omega arith }

Kept-IsCounted_example : IsCounted two_at_most busy "ns/hits"
unfolding get concurrency
Kept-IsCounted_example = Kept-IsCounted two_at_most idle "ns/hits" busy idle-IsCounted first-Kept

-- A pass over a query that is not registered: its run is not counted.
abbrev unknown : System
unknown = record {
  entries = (pass two_queries "ns/none" spec defaults (some true) 1000 9 30).0;
  tasks = started (pass two_queries "ns/none" spec defaults (some true) 1000 9 30).1 "ns/none" [];
}

unknown_run : Reach two_at_most idle unknown
unfolding get concurrency
unknown_run =
    next here (passed "ns/none" spec defaults (some true) 1000 9 30 (omega arith) refl refl)

Reach-IsCovered_example : IsCovered unknown "ns/none"
unfolding get inflight
Reach-IsCovered_example =
    Reach-IsCovered two_at_most idle unknown "ns/none" (omega arith) unknown_run

recreated_exceeds_example :
    (t : System) × Reach two_at_most busy t
    × (overlap "ns/hits" t.tasks ≡ 2)
    × (inflight t.entries "ns/hits" ≡ 1)
unfolding concurrency get pass invalid_reason inflight inc_inflight put
recreated_exceeds_example =
    recreated_exceeds two_at_most busy "ns/hits" "clickhouse_hits" "Hits" [] spec defaults 1000 9 30
      (omega arith) (omega arith)

apply_prefix-IsNamespaced_example :
    IsNamespaced "hits" "clickhouse" "fail" (apply_prefix "hits" "clickhouse" "fail")
apply_prefix-IsNamespaced_example = apply_prefix-IsNamespaced "hits" "clickhouse" "fail"

abbrev reserved_metric : MetricSpec
reserved_metric = record {
  name = "hits";
  help = none;
  labels = some (("query_key", "mine") ∷ []);
  prefix_policy = none;
}

pass-register_query_example :
    let es' = register_query defaults (some "ns") "hits" reserved_metric none two_queries in
    IsRegistered defaults reserved_metric none two_queries es' (resource_key (some "ns") "hits")
    × (is_some (pass es' (resource_key (some "ns") "hits") spec defaults (some true) 1000 9 30).1
        ≡ not (is_misconfigured defaults reserved_metric none))
unfolding inflight get resource_key concurrency
pass-register_query_example =
    pass-register_query defaults (some "ns") "hits" reserved_metric none two_queries spec 1000 9 30
      (omega arith)
