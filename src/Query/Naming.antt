-- ===== src/Query/Naming.antt =====
-- The identity of a query's metric: `apply_prefix`, `reserved_label_names` and `resolve_metric` of
-- src/promch/handlers/query_status.py.
pub mod Prefix
pub mod Reserved
use prometheus_ch_exporter.Prelude.{
  String, ◌<>◌, ◌≡◌, refl, Bool, true, false, not, ◌&&◌, ◌||◌, Option, none, some, List, [], ◌∷◌,
  ◌==◌, if◌then◌else◌, starts_with, keep_if, contains, text_truthy, nonempty,
}
use prometheus_ch_exporter.Prelude.Result.{Result, ok, err}
use prometheus_ch_exporter.Prelude.Text.{repr, repr_list}
use prometheus_ch_exporter.Prelude.Sorting.{sorted_set}
use prometheus_ch_exporter.Dict.{Dict, keys}

-- The message of the ValueError.
unfoldable pub prefix_error : String → String → String
unfolding repr
prefix_error name prefix =
    "metric name "
    <> (repr name
        <> (" already starts with the configured prefix "
            <> (repr prefix
                <> "; set spec.metric.prefixPolicy to 'skip' to keep the name or 'append' to add it anyway")))

-- A ValueError is its message.
unfoldable pub apply_prefix : (name prefix policy : String) → Result String String
unfolding prefix_error
apply_prefix name prefix policy =
    let lead = prefix <> "_" in
    if not (text_truthy prefix)
    then ok name
    else if not (starts_with name lead)
    then ok (lead <> name)
    else if policy == "skip"
    then ok name
    else if policy == "append"
    then ok (lead <> name)
    else err (prefix_error name prefix)

unfoldable pub reserved_label_names : (node_label query_type : String) → List String
reserved_label_names node_label query_type =
    if query_type == "system" then "query_key" ∷ node_label ∷ [] else "query_key" ∷ []

-- `spec.metric` of the resource; a key that is not there is `none`.
pub record MetricSpec : Type 0 where
  pub name : String
  pub help : Option String
  pub labels : Option (Dict String)
  pub prefix_policy : Option String

pub record ResolvedMetric : Type 0 where
  pub name : String
  pub help : String
  pub labels : Dict String
  pub invalid_reason : Option String

abbrev pub default {ℓ} : {A : Type ℓ} → A → Option A → A
default a none = a
default a (some b) = b

unfoldable pub clashes_error : List String → String
unfolding repr_list
clashes_error clashes =
    "metric.labels use reserved label name(s) "
    <> (repr_list clashes <> "; these are added by the exporter and must not be set")

abbrev pub resolved : String → MetricSpec → Option String → ResolvedMetric
resolved name m reason = record {
  name = name;
  help = default "" m.help;
  labels = default [] m.labels;
  invalid_reason = reason;
}

-- `sorted(set(labels) & reserved)`
unfoldable pub clashing : (labels : Dict String) (reserved : List String) → List String
clashing labels reserved = sorted_set (keep_if (contains reserved) (keys labels))

unfoldable pub resolve_metric :
    MetricSpec → (query_type prefix node_label : String) → ResolvedMetric
unfolding apply_prefix reserved_label_names clashes_error clashing
resolve_metric m query_type prefix node_label =
    let clashes = clashing (default [] m.labels) (reserved_label_names node_label query_type) in
    if nonempty clashes
    then resolved m.name m (some (clashes_error clashes))
    else elim (apply_prefix m.name prefix (default "fail" m.prefix_policy)) [
      | ok final_name ↦ resolved final_name m none
      | err message ↦ resolved m.name m (some message)
    ]
