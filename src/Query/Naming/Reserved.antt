-- ===== src/Query/Naming/Reserved.antt =====
-- When `resolve_metric` of src/promch/handlers/query_status.py finds a resource invalid.
use text.Mathlib.TextLemmas.{append-eq-nil_iff}
use prometheus_ch_exporter.Prelude.{
  String, ◌<>◌, ◌≡◌, refl, ◌∙◌, Bool, true, false, ◌&&◌, ◌||◌, some, List, [], ◌∷◌, ◌==◌, eq_iff,
  arith, truthy, is_some, keep_if, contains, nonempty, Bool-cases, inl, inr,
}
use prometheus_ch_exporter.Prelude.Result.{ok, is_err}
use prometheus_ch_exporter.Prelude.Sorting.{nonempty-sorted_set}
use prometheus_ch_exporter.Dict.{Dict, get, keys, has}
use prometheus_ch_exporter.Query.Naming.{
  MetricSpec, default, apply_prefix, prefix_error, clashes_error, reserved_label_names, clashing,
  resolve_metric,
}
use prometheus_ch_exporter.Query.Naming.Prefix.{collides, apply_prefix-IsNamespaced}

-- The user sets a label that the exporter adds itself.
abbrev pub sets_reserved : Dict String → (query_type node_label : String) → Bool
sets_reserved labels query_type node_label =
    has labels "query_key" || (query_type == "system" && has labels node_label)

nonempty-clashes :
    (labels : Dict String) (a b : String)
    → nonempty (keep_if (contains (a ∷ b ∷ [])) (keys labels)) ≡ (has labels a || has labels b)
unfolding get
nonempty-clashes [] a b = refl
nonempty-clashes ((k, v) ∷ labels) a b =
    ground (arith, eq_iff a k, eq_iff k a, eq_iff b k, eq_iff k b, nonempty-clashes labels a b)

nonempty-clashes_one :
    (labels : Dict String) (a : String)
    → nonempty (keep_if (contains (a ∷ [])) (keys labels)) ≡ has labels a
unfolding get
nonempty-clashes_one [] a = refl
nonempty-clashes_one ((k, v) ∷ labels) a =
    ground (arith, eq_iff a k, eq_iff k a, nonempty-clashes_one labels a)

nonempty-clashing :
    (labels : Dict String) (query_type node_label : String)
    → nonempty (clashing labels (reserved_label_names node_label query_type))
      ≡ sets_reserved labels query_type node_label
unfolding clashing reserved_label_names
nonempty-clashing labels query_type node_label =
    nonempty-sorted_set _
    ∙ ground (
      arith,
      nonempty-clashes labels "query_key" node_label,
      nonempty-clashes_one labels "query_key",
    )

append-ne_empty : (s t : String) → s == "" ≡ false → (s <> t) == "" ≡ false
append-ne_empty s t h = elim (Bool-cases ((s <> t) == "")) [
  | inr e ↦ e
  | inl e ↦ absurd (cc (h, (eq_iff s "").1 (append-eq-nil_iff.0 ((eq_iff (s <> t) "").0 e)).0))
]

apply_prefix_fails :
    (name prefix policy : String)
    → is_err (apply_prefix name prefix policy) ≡ collides name prefix policy
unfolding apply_prefix
apply_prefix_fails name prefix policy = ground arith

truthy-prefix_error : (name prefix : String) → truthy (some (prefix_error name prefix)) ≡ true
unfolding prefix_error
truthy-prefix_error name prefix = rw (append-ne_empty "metric name " _ refl)

truthy-clashes_error : (clashes : List String) → truthy (some (clashes_error clashes)) ≡ true
unfolding clashes_error
truthy-clashes_error clashes =
    rw (append-ne_empty "metric.labels use reserved label name(s) " _ refl)

abbrev pub invalid : MetricSpec → (query_type prefix node_label : String) → Bool
invalid m query_type prefix node_label =
    sets_reserved (default [] m.labels) query_type node_label
    || collides m.name prefix (default "fail" m.prefix_policy)

-- A resource is invalid exactly if it sets a label that the exporter adds (`query_key`, and the node
-- label on a system query), or its name collides with the prefix under its policy, which is `fail`
-- if it names none. The reason is then a text that is not empty, so that the tests for None and for
-- truth agree; the labels stay as given, and a valid name is the one that `apply_prefix` makes.
pub resolve_metric-invalid :
    (m : MetricSpec) (query_type prefix node_label : String)
    → (is_some (resolve_metric m query_type prefix node_label).invalid_reason
        ≡ invalid m query_type prefix node_label)
      × (truthy (resolve_metric m query_type prefix node_label).invalid_reason
          ≡ invalid m query_type prefix node_label)
      × ((resolve_metric m query_type prefix node_label).labels ≡ default [] m.labels)
      × (invalid m query_type prefix node_label ≡ false
          → apply_prefix m.name prefix (default "fail" m.prefix_policy)
            ≡ ok (resolve_metric m query_type prefix node_label).name)
unfolding resolve_metric
resolve_metric-invalid m query_type prefix node_label =
    let policy = default "fail" m.prefix_policy in
    ground (
      arith,
      nonempty-clashing (default [] m.labels) query_type node_label,
      truthy-clashes_error
          (clashing (default [] m.labels) (reserved_label_names node_label query_type)),
      truthy-prefix_error m.name prefix,
      apply_prefix_fails m.name prefix policy,
      apply_prefix-IsNamespaced m.name prefix policy,
    )
