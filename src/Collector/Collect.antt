-- ===== src/Collector/Collect.antt =====
-- `QueryMetricsCollector.collect` of src/promch/collector/metrics.py: what a scrape yields.
-- A family holds the arguments that the code hands to prometheus_client: its name and help, its
-- label names, and for each `add_metric` call the label values and the value.
pub mod Grouping
pub mod Labels
pub mod System
pub mod Leader
use prometheus_ch_exporter.Prelude.{
  ℕ, String, ◌<>◌, Bool, true, false, not, ◌&&◌, Option, none, some, List, [], ◌∷◌, ◌++◌, map,
  if◌then◌else◌, truthy, text_truthy, nonempty, keep_if, for_each,
}
use prometheus_ch_exporter.Prelude.Text.{rstrip}
use prometheus_ch_exporter.Prelude.Sorting.{sorted_set}
use prometheus_ch_exporter.Dict.{Dict, get, put, keys, get_or}
use prometheus_ch_exporter.Collector.{Float, QueryResult, CachedMetric, Entries, row_list}

pub data Kind : Type 0 where
  gauge counter : Kind

-- A value of a sample: a whole number, a time in microseconds, or a query's result.
pub data SampleValue : Type 0 where
  number : ℕ → SampleValue
  micros : ℕ → SampleValue
  measured : Float → SampleValue

pub record Sample : Type 0 where
  pub label_values : List String
  pub value : SampleValue

pub record Family : Type 0 where
  pub kind : Kind
  pub name : String
  pub help : String
  pub label_names : List String
  pub samples : List Sample

-- `self._prefix = prefix.rstrip("_")`
unfoldable pub collector_prefix : String → String
unfolding rstrip
collector_prefix prefix = rstrip b'_' prefix

-- `prefix` is the stripped one.
unfoldable pub sys_name : String → String → String
sys_name prefix suffix = if text_truthy prefix then prefix <> ("_" <> suffix) else suffix

-- What is read of one entry under its lock.
abbrev pub Read : Type 0
Read = String × CachedMetric

abbrev pub is_valid : Read → Bool
is_valid r = not (truthy r.1.invalid_reason)

abbrev pub is_served : Read → Bool
is_served r = not r.1.expired && nonempty (row_list r.1)

abbrev pub flag : Bool → SampleValue
flag b = number (if b then 1 else 0)

unfoldable pub leader_family : String → Bool → Family
leader_family prefix is_leader = record {
  kind = gauge;
  name = sys_name prefix "leader";
  help = "1 if this replica is the active peer exporting query metrics, 0 if standby";
  label_names = [];
  samples = record { label_values = []; value = flag is_leader } ∷ [];
}

abbrev pub keyed : Kind → String → String → List Sample → Family
keyed kind name help samples = record {
  kind = kind;
  name = name;
  help = help;
  label_names = "query_key" ∷ [];
  samples = samples;
}

abbrev pub key_sample : Read → SampleValue → Sample
key_sample r value = record { label_values = r.0 ∷ []; value = value }

-- A sample for each read whose time is known.
unfoldable pub known_times : (CachedMetric → Option ℕ) → List Read → List Sample
known_times field =
    for_each λ r. elim (field r.1) [ none ↦ [] | some t ↦ key_sample r (micros t) ∷ [] ]

abbrev pub if_any : Family → List Family
if_any fam = if nonempty fam.samples then fam ∷ [] else []

unfoldable pub up_samples : List Read → List Sample
up_samples = map λ r. key_sample r (flag (is_valid r && r.1.up))

-- The five families about the queries; `active` are the valid reads.
unfoldable pub system_families : String → (reads active : List Read) → List Family
unfolding up_samples known_times
system_families prefix reads active =
    if_any (
      keyed gauge (sys_name prefix "query_up")
        "1 if the last ClickHouseQuery execution succeeded, 0 otherwise" (up_samples reads))
    ++ (if_any (
          keyed gauge (sys_name prefix "query_last_success_timestamp_seconds")
            "Unix timestamp of the last successful ClickHouseQuery execution"
            (known_times (λ e. e.last_success_ts) active))
        ++ (if_any (
              keyed gauge (sys_name prefix "query_duration_seconds")
                "Duration of the last ClickHouseQuery execution in seconds"
                (known_times (λ e. e.last_duration) active))
            ++ (if_any (
                  keyed gauge (sys_name prefix "query_inflight")
                    "Number of in-flight executions for this ClickHouseQuery"
                    (map (λ r. key_sample r (number r.1.inflight)) active))
                ++ if_any (
                    keyed counter (sys_name prefix "query_skipped_total")
                      "Ticks skipped because maxConcurrent was reached"
                      (map (λ r. key_sample r (number r.1.skipped_total)) active)))))

-- `groups[name].append(r)` on a `defaultdict(list)`
unfoldable pub append_to : Dict (List Read) → String → Read → Dict (List Read)
append_to groups name r = put groups name (get_or groups name [] ++ r ∷ [])

unfoldable pub group_reads : Dict (List Read) → List Read → Dict (List Read)
unfolding append_to
group_reads groups [] = groups
group_reads groups (r ∷ rs) =
    group_reads (if is_served r then append_to groups r.1.name r else groups) rs

unfoldable pub static_keys : List Read → List String
static_keys group = sorted_set (for_each (λ r. keys r.1.labels) group)

unfoldable pub dynamic_keys : List Read → List String
dynamic_keys group =
    sorted_set (for_each (λ r. for_each (λ row. keys row.dynamic_labels) (row_list r.1)) group)

-- `[labels.get(k, "") for k in keys]`
unfoldable pub values_at : Dict String → List String → List String
values_at labels = map λ k. get_or labels k ""

unfoldable pub row_sample : (statics dynamics : List String) → Read → QueryResult → Sample
row_sample statics dynamics r row = record {
  label_values =
      values_at r.1.labels statics ++ (values_at row.dynamic_labels dynamics ++ r.0 ∷ []);
  value = measured row.value;
}

abbrev pub first_help : List Read → String
first_help [] = ""
first_help (r ∷ rs) = r.1.help

unfoldable pub user_family : String × List Read → Family
unfolding row_sample
user_family (name, group) =
    let statics = static_keys group in
    let dynamics = dynamic_keys group in
    record {
      kind = gauge;
      name = name;
      help = first_help group;
      label_names = statics ++ (dynamics ++ "query_key" ∷ []);
      samples = for_each (λ r. map (λ row. row_sample statics dynamics r row) (row_list r.1)) group;
    }

unfoldable pub user_families : List Read → List Family
unfolding group_reads user_family
user_families active = map user_family (group_reads [] active)

-- `prefix` is the stripped one, and `is_leader` what `_is_active()` answers.
unfoldable pub collect : (prefix : String) (is_leader : Bool) → Entries → List Family
unfolding leader_family system_families user_families
collect prefix is_leader es =
    leader_family prefix is_leader
    ∷ (if is_leader
        then (let active = keep_if is_valid es in
            system_families prefix es active ++ user_families active)
        else [])
