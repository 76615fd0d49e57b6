-- ===== src/Query/Lifecycle/Gated.antt =====
-- What a registration decides for the passes of the scheduler (src/promch/handlers/query.py).
use prometheus_ch_exporter.Prelude.{
  ℕ, ◌<◌, String, ◌≡◌, refl, ◌∙◌, ap, subst, Bool, true, not, Option, none, some, [], arith,
  eq_refl, is_some, Option-cases, inl, inr,
}
use prometheus_ch_exporter.Dict.{Dict, get}
use prometheus_ch_exporter.Dict.Laws.{get-put}
use prometheus_ch_exporter.Collector.{
  Entries, CachedMetric, new_metric, register, inflight, invalid_reason,
}
use prometheus_ch_exporter.Config.{OperatorConfig, metric_prefix_normalized}
use prometheus_ch_exporter.Query.Naming.{MetricSpec, resolve_metric, default}
use prometheus_ch_exporter.Query.Naming.Reserved.{invalid, resolve_metric-invalid}
use prometheus_ch_exporter.Query.Scheduler.{QuerySpec, pass, concurrency, resource_key}
use prometheus_ch_exporter.Query.Lifecycle.{resolve_resource, register_query}

-- The resource sets a label that the exporter adds, or its name collides with the prefix.
abbrev pub is_misconfigured : OperatorConfig → MetricSpec → (query_type : Option String) → Bool
is_misconfigured config m query_type =
    invalid m (default "data" query_type) (metric_prefix_normalized config) config.node_label

-- What an entry keeps when its resource changes.
abbrev pub Kept : Option CachedMetric → CachedMetric → Type 0
Kept none e' = (e'.rows ≡ none) × (e'.inflight ≡ 0)
Kept (some e) e' =
    (e'.rows ≡ e.rows)
    × ((e'.consecutive_failures ≡ e.consecutive_failures)
        × ((e'.tick_ts ≡ e.tick_ts) × (e'.inflight ≡ e.inflight)))

pub record IsRegistered (config : OperatorConfig) (m : MetricSpec) (query_type : Option String)
    (es es' : Entries) (key : String) : Type 0 where
  pub entry : CachedMetric
  pub stored : get es' key ≡ some entry
  pub kept : Kept (get es key) entry
  pub labels : entry.labels ≡ default [] m.labels
  pub marked : is_some entry.invalid_reason ≡ is_misconfigured config m query_type

register-stores :
    (es : Entries) (key name help : String) (labels : Dict String) (reason : Option String)
    → (entry : CachedMetric) × (get (register es key name help labels reason) key ≡ some entry)
      × Kept (get es key) entry
      × (entry.labels ≡ labels)
      × (entry.invalid_reason ≡ reason)
unfolding register
register-stores es key name help labels reason = elim (Option-cases (get es key)) [
  | inl missing ↦ (
    new_metric name help labels reason,
    rw (missing, register)
        (get-put es key (new_metric name help labels reason) key ∙ rw (eq_refl key) refl),
    rw missing (refl, refl),
    refl,
    refl,
  )
  | inr (e, here) ↦
      let e' = record e { name = name; help = help; labels = labels; invalid_reason = reason } in
      (
        e',
        rw (here, register) (get-put es key e' key ∙ rw (eq_refl key) refl),
        rw here (refl, (refl, (refl, refl))),
        refl,
        refl,
      )
]

register_query-IsRegistered :
    (config : OperatorConfig) (namespace : Option String) (name : String) (m : MetricSpec)
    (query_type : Option String) (es : Entries)
    → IsRegistered config m query_type es
        (register_query config namespace name m query_type es)
        (resource_key namespace name)
unfolding register_query resolve_resource
register_query-IsRegistered config namespace name m query_type es =
    let prefix = metric_prefix_normalized config in
    let kind = default "data" query_type in
    let meaning = resolve_metric-invalid m kind prefix config.node_label in
    let resolved = resolve_metric m kind prefix config.node_label in
    let (entry, stored, kept, labels, reason) =
      register-stores es (resource_key namespace name) resolved.name resolved.help resolved.labels
        resolved.invalid_reason in
    record {
      entry = entry;
      stored = stored;
      kept = kept;
      labels = labels ∙ meaning.2;
      marked = ap is_some reason ∙ meaning.0;
    }

same_inflight :
    (es : Entries) (key : String) (entry : CachedMetric) {limit : ℕ}
    → Kept (get es key) entry
    → inflight es key < limit
    → entry.inflight < limit
unfolding inflight
same_inflight es key entry kept free = elim (Option-cases (get es key)) [
  | inl missing ↦ ground (arith, subst (λ o. Kept o entry) missing kept, missing, free)
  | inr (e, here) ↦ ground (arith, subst (λ o. Kept o entry) here kept, here, free)
]

gate :
    (es : Entries) (key : String) (e : CachedMetric) (spec : QuerySpec) (config : OperatorConfig)
    (wall_time loop_time timeout : ℕ)
    → get es key ≡ some e
    → e.inflight < concurrency spec config
    → is_some (pass es key spec config (some true) wall_time loop_time timeout).1
      ≡ not (is_some e.invalid_reason)
unfolding pass invalid_reason inflight
gate es key e spec config wall_time loop_time timeout here free = ground (arith, here, free)

-- A creation or a change of a query resource leaves an entry with the labels of the resource, which
-- keeps the rows, the failures, the tick and the running executions that it had. A later pass over it,
-- with a connection that is ready and fewer runs than it may have, starts a run exactly if the resource
-- sets no label that the exporter adds and its name does not collide with the prefix.
pub pass-register_query :
    (config : OperatorConfig) (namespace : Option String) (name : String) (m : MetricSpec)
    (query_type : Option String) (es : Entries) (spec : QuerySpec) (wall_time loop_time timeout : ℕ)
    → inflight es (resource_key namespace name) < concurrency spec config
    → let es' = register_query config namespace name m query_type es in
      let key = resource_key namespace name in
      IsRegistered config m query_type es es' key
      × (is_some (pass es' key spec config (some true) wall_time loop_time timeout).1
          ≡ not (is_misconfigured config m query_type))
pass-register_query config namespace name m query_type es spec wall_time loop_time timeout free =
    let es' = register_query config namespace name m query_type es in
    let key = resource_key namespace name in
    let i = register_query-IsRegistered config namespace name m query_type es in
    (
      i,
      gate es' key i.entry spec config wall_time loop_time timeout i.stored
            (same_inflight es key i.entry i.kept free)
          ∙ ap not i.marked,
    )
