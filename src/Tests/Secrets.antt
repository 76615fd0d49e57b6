-- ===== src/Tests/Secrets.antt =====
-- A secret with a password that is not ASCII (src/promch/k8s_secrets.py), and a connection that refers
-- to it (src/promch/handlers/connection.py).
use prometheus_ch_exporter.Prelude.{
  ℕ, String, ◌≡◌, refl, false, not, ◌&&◌, none, some, List, [], ◌∷◌, arith, nat_eq, is_some, ◌==◌,
  if◌then◌else◌,
}
use prometheus_ch_exporter.Prelude.Text.{codes}
use prometheus_ch_exporter.Prelude.Result.{ok, err, is_err}
use prometheus_ch_exporter.Dict.{Dict, get, IsUnique}
use prometheus_ch_exporter.Cluster.Client.{client_arguments}
use prometheus_ch_exporter.Cluster.Topology.{ConnectionSpec}
use prometheus_ch_exporter.Secrets.Base64.{encode_base64}
use prometheus_ch_exporter.Secrets.Utf8.{encode_utf8}
use prometheus_ch_exporter.Secrets.Reader.{
  Transport, read_secret, decode_value, operator_namespace, data_or_empty,
}
use prometheus_ch_exporter.Secrets.Reader.Lookup.{decoded}
use prometheus_ch_exporter.Secrets.Reader.RoundTrip.{IsSecret, read_secret_stored}
use prometheus_ch_exporter.Secrets.Reader.Bounds.{IsTexts, read_secret-IsTexts}
use prometheus_ch_exporter.Registry.Spec.{
  spec_to_connection_spec, SecretRef, ResourceSpec, or_default, resolve_spec,
}
use prometheus_ch_exporter.Registry.Spec.Credentials.{
  IsAuthorised, resolve_spec-IsAuthorised, is_err-resolve_spec,
}

-- "pä" and "exporter"
abbrev pub values : Dict (List ℕ)
values = ("password", 112 ∷ 228 ∷ []) ∷ ("username", codes "exporter") ∷ []

abbrev pub raw : Dict String
raw = ("password", "cMOk") ∷ ("username", "ZXhwb3J0ZXI=") ∷ []

abbrev pub api_server : Transport
api_server namespace name = if name == "auth" then (200, some raw) else (404, none)

values-IsUnique : IsUnique values
unfolding get
values-IsUnique = (refl, (refl, tt))

values-IsSecret : IsSecret values raw
unfolding encode_base64 encode_utf8
values-IsSecret = (refl, (ground arith, (refl, (refl, (ground arith, (refl, tt))))))

read_secret_stored_example : read_secret api_server "ops" "auth" ≡ ok values
read_secret_stored_example =
    read_secret_stored api_server "ops" "auth" values raw refl values-IsUnique values-IsSecret

-- The second value is no text: its only byte begins no character.
abbrev mixed : Dict String
mixed = ("password", "cM\nOk") ∷ ("cert", "/w==") ∷ []

abbrev mixed_server : Transport
mixed_server namespace name = (200, some mixed)

mixed-IsUnique : IsUnique mixed
unfolding get
mixed-IsUnique = (refl, (refl, tt))

read_secret-IsTexts_example : IsTexts (("password", 112 ∷ 228 ∷ []) ∷ [])
unfolding read_secret
read_secret-IsTexts_example =
    read_secret-IsTexts mixed_server "ops" "auth" (("password", 112 ∷ 228 ∷ []) ∷ []) refl

missing_secret : read_secret api_server "ops" "other" ≡ err "secret ops/other not found"
unfolding read_secret
missing_secret = refl

denied_secret :
    read_secret (λ namespace name. (403, none)) "ops" "auth"
    ≡ err "reading secret ops/auth: API server returned HTTP 403"
unfolding read_secret
denied_secret = refl

-- Overlong forms, surrogates and cut characters are no texts.
bad_values : decode_value "wIA=" ≡ none
unfolding decode_value
bad_values = refl

surrogate_value : decode_value "7aCA" ≡ none
unfolding decode_value
surrogate_value = refl

astral_value : decode_value "8J+Ygw==" ≡ some (128515 ∷ [])
unfolding decode_value
astral_value = refl

mounted_namespace : operator_namespace (some "") (some " ops\n") ≡ "ops"
unfolding operator_namespace
mounted_namespace = refl

abbrev auth : SecretRef
auth = record { name = "auth"; username_key = none; password_key = none }

abbrev pub resource : ResourceSpec
resource = record {
  seed_hosts = "a" ∷ "b" ∷ [];
  cluster_name = "main";
  port = none;
  username = none;
  auth_secret_ref = some auth;
  secure = none;
  verify = some false;
  max_failovers = none;
  system_query_retries = none;
  liveness_mode = none;
  connect_timeout = none;
}

resolve_spec-IsAuthorised_example :
    (c : ConnectionSpec) × (resolve_spec api_server "ops" resource ≡ ok c)
    × IsAuthorised resource auth values c
unfolding get
resolve_spec-IsAuthorised_example =
    resolve_spec-IsAuthorised api_server "ops" resource auth values raw (112 ∷ 228 ∷ []) refl refl
      values-IsUnique values-IsSecret refl

is_err-resolve_spec_example :
    is_err (resolve_spec mixed_server "ops" resource)
    ≡ not (
        nat_eq 200 200
        && is_some
            (decoded (get (data_or_empty (some mixed)) (or_default auth.password_key "password"))))
is_err-resolve_spec_example =
    is_err-resolve_spec mixed_server "ops" resource auth 200 (some mixed) refl refl mixed-IsUnique

abbrev half_second : ResourceSpec
half_second = record resource { connect_timeout = some 500000 }

-- A timeout of half a second reaches the driver as none.
short_timeout :
    (client_arguments "a" (spec_to_connection_spec half_second [] none)).connect_timeout ≡ 0
unfolding client_arguments spec_to_connection_spec
short_timeout = refl
