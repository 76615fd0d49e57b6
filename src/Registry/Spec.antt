-- ===== src/Registry/Spec.antt =====
-- The specification of a connection and its credentials: `_spec_to_connection_spec` and
-- `_resolve_credentials` of src/promch/handlers/connection.py.
pub mod Credentials
use prometheus_ch_exporter.Prelude.{
  ℕ, String, ◌<>◌, Bool, true, Option, none, some, List, [], ◌∷◌, if◌then◌else◌,
}
use prometheus_ch_exporter.Prelude.Text.{codes, repr}
use prometheus_ch_exporter.Prelude.Result.{Result, ok, err, ◌>>=◌}
use prometheus_ch_exporter.Dict.{Dict, get}
use prometheus_ch_exporter.Cluster.Topology.{ConnectionSpec}
use prometheus_ch_exporter.Secrets.Reader.{Transport, read_secret}

-- `authSecretRef`
pub record SecretRef : Type 0 where
  pub name : String
  pub username_key : Option String
  pub password_key : Option String

-- The `spec` of the resource, with the types of its CRD; a key that is missing is `none`.
pub record ResourceSpec : Type 0 where
  pub seed_hosts : List String
  pub cluster_name : String
  pub port : Option ℕ
  pub username : Option String
  pub auth_secret_ref : Option SecretRef
  pub secure : Option Bool
  pub verify : Option Bool
  pub max_failovers : Option ℕ
  pub system_query_retries : Option ℕ
  pub liveness_mode : Option String
  pub connect_timeout : Option ℕ

-- `spec.get(key, default)`
abbrev pub or_default {ℓ} : {A : Type ℓ} → Option A → A → A
or_default none d = d
or_default (some a) d = a

unfoldable pub spec_to_connection_spec :
    ResourceSpec → (password : List ℕ) (username_override : Option (List ℕ)) → ConnectionSpec
spec_to_connection_spec spec password username_override = record {
  seed_hosts = spec.seed_hosts;
  cluster_name = spec.cluster_name;
  port = or_default spec.port 8443;
  username = or_default username_override (codes (or_default spec.username "default"));
  password = password;
  secure = or_default spec.secure true;
  verify = or_default spec.verify true;
  connect_timeout = or_default spec.connect_timeout 10000000;
  max_failovers = spec.max_failovers;
  system_query_retries = or_default spec.system_query_retries 1;
  liveness_mode = or_default spec.liveness_mode "active";
  recheck_interval = 60000000;
  topology_interval = 1800000000;
  idle_ttl = 300000000;
}

-- The username override, and the password.
abbrev pub Credentials : Type 0
Credentials = Option (List ℕ) × List ℕ

-- What the keys of a secret that was read give.
unfoldable pub credentials_in :
    SecretRef → (namespace : String) → Dict (List ℕ) → Result String Credentials
unfolding repr
credentials_in ref namespace found =
    let password_key = or_default ref.password_key "password" in
    elim (get found password_key) [
      | none ↦
          err (
            "secret "
            <> (namespace <> ("/" <> (ref.name <> (" has no key " <> repr password_key)))))
      | some password ↦ ok (get found (or_default ref.username_key "username"), password)
    ]

-- The error is the message of the SecretResolutionError; `namespace` is `operator_namespace()`.
unfoldable pub resolve_credentials :
    Transport → (namespace : String) → ResourceSpec → Result String Credentials
unfolding read_secret credentials_in
resolve_credentials transport namespace spec = elim spec.auth_secret_ref [
  | none ↦ ok (none, [])
  | some ref ↦ read_secret transport namespace ref.name >>= credentials_in ref namespace
]

-- What `_ensure_connection` builds a connection from.
unfoldable pub resolve_spec :
    Transport → (namespace : String) → ResourceSpec → Result String ConnectionSpec
unfolding resolve_credentials spec_to_connection_spec
resolve_spec transport namespace spec = do
  credentials ← resolve_credentials transport namespace spec
  ok (spec_to_connection_spec spec credentials.1 credentials.0)
