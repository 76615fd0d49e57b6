-- ===== src/Registry/Ensure.antt =====
-- `_ensure_connection` of src/promch/handlers/connection.py, by what it finds and reads.
use prometheus_ch_exporter.Prelude.{ℕ, String, ◌≡◌, refl, ◌∙◌, none, some}
use prometheus_ch_exporter.Prelude.Result.{ok, err}
use prometheus_ch_exporter.Cluster.Topology.{ConnectionSpec}
use prometheus_ch_exporter.Secrets.Reader.{Transport}
use prometheus_ch_exporter.Registry.{
  Registry, change, pop, build, close_object, ensure_connection, pop_and_close, temporary_error,
}
use prometheus_ch_exporter.Registry.Keyed.{Key, find, find-set, same_key_refl}
use prometheus_ch_exporter.Registry.Spec.{ResourceSpec, resolve_spec}

pub build_found :
    (r : Registry) (key : Key) (spec : ConnectionSpec) (now : ℕ)
    → find r.connections key ≡ none
    → find (build r key spec now).0.connections key ≡ some (build r key spec now).1
unfolding build change
build_found r key spec now nobody =
    rw (nobody, build) (find-set r.connections key r.built key ∙ rw (same_key_refl key) refl)

module _ (transport : Transport) (own_namespace : String) (key : Key) (spec : ResourceSpec)
    (now : ℕ) (r : Registry) where
  pub ensure_there :
      (id : ℕ)
      → find r.connections key ≡ some id
      → ensure_connection transport own_namespace key spec now r ≡ (r, ok id)
  unfolding ensure_connection
  ensure_there id found = rw (ensure_connection, found) refl

  pub ensure_refused :
      (message : String)
      → find r.connections key ≡ none
      → resolve_spec transport own_namespace spec ≡ err message
      → ensure_connection transport own_namespace key spec now r
        ≡ (r, err (temporary_error key.1 message))
  unfolding ensure_connection
  ensure_refused message nobody fails = rw (ensure_connection, nobody, fails) refl

  pub ensure_built :
      (cspec : ConnectionSpec)
      → find r.connections key ≡ none
      → resolve_spec transport own_namespace spec ≡ ok cspec
      → ensure_connection transport own_namespace key spec now r
        ≡ ((build r key cspec now).0, ok (build r key cspec now).1)
  unfolding ensure_connection
  ensure_built cspec nobody reads = rw (ensure_connection, nobody, reads) refl

pub pop_missing :
    (r : Registry) (key : Key) → find r.connections key ≡ none → pop_and_close r key ≡ r
unfolding pop_and_close
pop_missing r key nobody = rw (pop_and_close, nobody) refl

pub pop_there :
    (r : Registry) (key : Key) (id : ℕ)
    → find r.connections key ≡ some id
    → pop_and_close r key ≡ close_object (pop r key) id
unfolding pop_and_close
pop_there r key id found = rw (pop_and_close, found) refl
