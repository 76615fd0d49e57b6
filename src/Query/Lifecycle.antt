-- ===== src/Query/Lifecycle.antt =====
-- The handlers of src/promch/handlers/query.py that follow a query resource: `register` on a creation,
-- a resume or a change, and `deregister` on a deletion; and `startup`, without the logs and the
-- server of the metrics.
pub mod Gated
use prometheus_ch_exporter.Prelude.{String, Bool, Option, none, some, []}
use prometheus_ch_exporter.Leadership.{initially_active, startup}
use prometheus_ch_exporter.Peering.{PeeringSettings, configure_peering}
use prometheus_ch_exporter.Collector.{Entries, register, unregister}
use prometheus_ch_exporter.Config.{OperatorConfig, metric_prefix_normalized}
use prometheus_ch_exporter.Query.Naming.{MetricSpec, ResolvedMetric, resolve_metric, default}
use prometheus_ch_exporter.Query.Scheduler.{resource_key}

-- `resolve_metric` on the resource's `metric` and `queryType`.
unfoldable pub resolve_resource :
    OperatorConfig → MetricSpec → (query_type : Option String) → ResolvedMetric
unfolding resolve_metric metric_prefix_normalized
resolve_resource config m query_type =
    resolve_metric m (default "data" query_type) (metric_prefix_normalized config) config.node_label

unfoldable pub register_query :
    OperatorConfig
    → (namespace : Option String) (name : String) → MetricSpec
    → (query_type : Option String) → Entries
    → Entries
unfolding resource_key resolve_resource register
register_query config namespace name m query_type es =
    let resolved = resolve_resource config m query_type in
    register es (resource_key namespace name) resolved.name resolved.help resolved.labels
      resolved.invalid_reason

-- What `startup` sets up: kopf's settings of peering, whether this replica leads, the prefix of the
-- collector, and its entries.
pub record Started : Type 0 where
  pub settings : PeeringSettings
  pub active : Bool
  pub prefix : String
  pub entries : Entries

unfoldable pub start_operator :
    OperatorConfig → PeeringSettings → (pod_name : Option String) (hostname : String) → Started
unfolding configure_peering startup metric_prefix_normalized
start_operator config settings pod_name hostname = record {
  settings = configure_peering settings config pod_name hostname;
  active = startup config.peering_enabled initially_active;
  prefix = metric_prefix_normalized config;
  entries = [];
}

unfoldable pub deregister : (namespace : Option String) (name : String) → Entries → Entries
unfolding resource_key unregister
deregister namespace name es = unregister es (resource_key namespace name)
