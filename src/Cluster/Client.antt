-- ===== src/Cluster/Client.antt =====
-- `default_client_factory` of src/promch/clickhouse/types.py: what it asks of clickhouse_connect, whose
-- answer is the `connect` of a driver.
use prometheus_ch_exporter.Prelude.{ℕ, ◌/◌, String, Bool, List}
use prometheus_ch_exporter.Cluster.Topology.{ConnectionSpec}

-- The arguments of `get_async_client`; the timeout is in whole seconds.
pub record ClientArguments : Type 0 where
  pub host : String
  pub port : ℕ
  pub username : List ℕ
  pub password : List ℕ
  pub secure : Bool
  pub verify : Bool
  pub connect_timeout : ℕ
  pub query_retries : ℕ

unfoldable pub client_arguments : (host : String) → ConnectionSpec → ClientArguments
client_arguments host spec = record {
  host = host;
  port = spec.port;
  username = spec.username;
  password = spec.password;
  secure = spec.secure;
  verify = spec.verify;
  connect_timeout = spec.connect_timeout / 1000000;
  query_retries = 0;
}
