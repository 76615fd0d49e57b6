-- ===== src/Registry/Spec/Credentials.antt =====
-- The credentials of a connection come from its secret (src/promch/handlers/connection.py).
use prometheus_ch_exporter.Prelude.{
  ℕ, String, ◌≡◌, refl, true, Option, some, List, not, ◌&&◌, nat_eq, is_some, arith, false,
  Bool-cases, inl, inr, ◌∙◌, ap,
}
use prometheus_ch_exporter.Prelude.Text.{codes}
use prometheus_ch_exporter.Prelude.Result.{is_err, Result-cases, Result, ok, err, ◌>>=◌}
use prometheus_ch_exporter.Dict.{Dict, get, IsUnique}
use prometheus_ch_exporter.Cluster.Client.{client_arguments}
use prometheus_ch_exporter.Cluster.Topology.{ConnectionSpec}
use prometheus_ch_exporter.Secrets.Reader.{Transport, read_secret, data_or_empty}
use prometheus_ch_exporter.Secrets.Reader.Lookup.{read_secret-IsLookup, decoded}
use prometheus_ch_exporter.Secrets.Reader.RoundTrip.{IsSecret, read_secret_stored}
use prometheus_ch_exporter.Registry.Spec.{
  SecretRef, ResourceSpec, or_default, credentials_in, spec_to_connection_spec, resolve_credentials,
  resolve_spec,
}

-- The password and the username that a secret holds for a connection; all else is the resource's.
pub record IsAuthorised (spec : ResourceSpec) (ref : SecretRef) (values : Dict (List ℕ))
    (c : ConnectionSpec) : Type 0 where
  pub password :
      (host : String)
      → get values (or_default ref.password_key "password")
        ≡ some (client_arguments host c).password
  pub username :
      (host : String)
      → (client_arguments host c).username
        ≡ or_default
            (get values (or_default ref.username_key "username"))
            (codes (or_default spec.username "default"))
  pub seed_hosts : c.seed_hosts ≡ spec.seed_hosts
  pub cluster_name : c.cluster_name ≡ spec.cluster_name

credentials_in_found :
    (ref : SecretRef) (namespace : String) (found : Dict (List ℕ)) (password : List ℕ)
    → get found (or_default ref.password_key "password") ≡ some password
    → credentials_in ref namespace found
      ≡ ok (get found (or_default ref.username_key "username"), password)
unfolding credentials_in
credentials_in_found ref namespace found password there = rw (credentials_in, there) refl

credentials_of_secret :
    (transport : Transport) (namespace : String) (spec : ResourceSpec) (ref : SecretRef)
    → spec.auth_secret_ref ≡ some ref
    → resolve_credentials transport namespace spec
      ≡ (read_secret transport namespace ref.name >>= credentials_in ref namespace)
unfolding resolve_credentials
credentials_of_secret transport namespace spec ref referred = rw referred refl

resolve_credentials_stored :
    (transport : Transport) (namespace : String) (spec : ResourceSpec) (ref : SecretRef)
    (values : Dict (List ℕ)) (raw : Dict String) (password : List ℕ)
    → spec.auth_secret_ref ≡ some ref
    → transport namespace ref.name ≡ (200, some raw)
    → IsUnique values
    → IsSecret values raw
    → get values (or_default ref.password_key "password") ≡ some password
    → resolve_credentials transport namespace spec
      ≡ ok (get values (or_default ref.username_key "username"), password)
unfolding resolve_credentials
resolve_credentials_stored transport namespace spec ref values raw password referred answers u
      secret there =
    rw (referred, read_secret_stored transport namespace ref.name values raw answers u secret)
      (credentials_in_found ref namespace values password there)

-- A connection with a secret connects to every host with the password that was written under the
-- secret's password key, and with the username that was written under its username key, else that of
-- the resource. Its seeds and its cluster are the resource's.
pub resolve_spec-IsAuthorised :
    (transport : Transport) (namespace : String) (spec : ResourceSpec) (ref : SecretRef)
    (values : Dict (List ℕ)) (raw : Dict String) (password : List ℕ)
    → spec.auth_secret_ref ≡ some ref
    → transport namespace ref.name ≡ (200, some raw)
    → IsUnique values
    → IsSecret values raw
    → get values (or_default ref.password_key "password") ≡ some password
    → (c : ConnectionSpec) × (resolve_spec transport namespace spec ≡ ok c)
      × IsAuthorised spec ref values c
unfolding resolve_spec spec_to_connection_spec client_arguments
resolve_spec-IsAuthorised transport namespace spec ref values raw password referred answers u secret
      there =
    (
      spec_to_connection_spec spec password (get values (or_default ref.username_key "username")),
      rw
          (resolve_credentials_stored transport namespace spec ref values raw password referred
            answers u secret there)
          refl,
      record {
        password = λ host. there;
        username = λ host. refl;
        seed_hosts = refl;
        cluster_name = refl;
      },
    )

is_err-credentials_in :
    (ref : SecretRef) (namespace : String) (found : Dict (List ℕ))
    → is_err (credentials_in ref namespace found)
      ≡ not (is_some (get found (or_default ref.password_key "password")))
unfolding credentials_in
is_err-credentials_in ref namespace found = ground arith

read_secret_refused :
    (transport : Transport) (namespace name : String)
    → nat_eq (transport namespace name).0 200 ≡ false
    → is_err (read_secret transport namespace name) ≡ true
unfolding read_secret
read_secret_refused transport namespace name other = ground arith

is_err-then :
    {A B C : Type 0} (call : Result String A) (next : A → Result String B) (last : B → C)
    → is_err (call >>= next >>= λ b. ok (last b)) ≡ is_err (call >>= next)
is_err-then (err e) next last = refl
is_err-then (ok a) next last = elim (Result-cases (next a)) [
  | inl n ↦ rw n.1 refl
  | inr n ↦ rw n.1 refl
]

is_err-refused :
    {A B : Type 0} (call : Result String A) (next : A → Result String B)
    → is_err call ≡ true
    → is_err (call >>= next) ≡ true
is_err-refused (err e) next fails = refl
is_err-refused (ok a) next fails = cc

is_err-credentials :
    (transport : Transport) (namespace : String) (ref : SecretRef) (status : ℕ)
    (body : Option (Dict String))
    → transport namespace ref.name ≡ (status, body)
    → IsUnique (data_or_empty body)
    → is_err (read_secret transport namespace ref.name >>= credentials_in ref namespace)
      ≡ not (
          nat_eq status 200
          && is_some (decoded (get (data_or_empty body) (or_default ref.password_key "password"))))
unfolding get
is_err-credentials transport namespace ref status body answers u =
    elim (Bool-cases (nat_eq status 200)) [
      | inr other ↦
          is_err-refused (read_secret transport namespace ref.name) (credentials_in ref namespace)
            (read_secret_refused transport namespace ref.name (rw answers other))
          ∙ rw other refl
      | inl same ↦
          let (found, reads, lookup) =
            read_secret-IsLookup transport namespace ref.name body
              (answers ∙ ap (λ n. (n, body)) (ground (arith, same))) u in
          rw
            (
              reads,
              same,
              is_err-credentials_in ref namespace found,
              lookup (or_default ref.password_key "password"),
            )
            refl
    ]

-- With a secret, the specification cannot be resolved exactly if the API server does not answer with
-- status 200, or has no value under the password key that decodes.
pub is_err-resolve_spec :
    (transport : Transport) (namespace : String) (spec : ResourceSpec) (ref : SecretRef)
    (status : ℕ) (body : Option (Dict String))
    → spec.auth_secret_ref ≡ some ref
    → transport namespace ref.name ≡ (status, body)
    → IsUnique (data_or_empty body)
    → is_err (resolve_spec transport namespace spec)
      ≡ not (
          nat_eq status 200
          && is_some (decoded (get (data_or_empty body) (or_default ref.password_key "password"))))
unfolding resolve_spec
is_err-resolve_spec transport namespace spec ref status body referred answers u =
    rw (credentials_of_secret transport namespace spec ref referred) (
      is_err-then (read_secret transport namespace ref.name) (credentials_in ref namespace)
        (λ c. spec_to_connection_spec spec c.1 c.0))
    ∙ is_err-credentials transport namespace ref status body answers u
