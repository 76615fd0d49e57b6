-- ===== src/Cluster/Connection/Passes.antt =====
-- The passes of a connection (src/promch/clickhouse/connection.py): `refresh`, `recheck`, `rediscover`.
use prometheus_ch_exporter.Prelude.{ℕ, ◌≡◌, refl, not, ◌||◌, [], arith, inl, inr, Option-cases}
use prometheus_ch_exporter.Prelude.Result.{ok, is_err, Result-cases}
use prometheus_ch_exporter.Cells.{Objects}
use prometheus_ch_exporter.Cluster.Node.{connection_error, query_error, escaped, Driver, query}
use prometheus_ch_exporter.Cluster.Node.Health.{query-health}
use prometheus_ch_exporter.Cluster.Topology.{
  ConnectionSpec, Topology, pick_one_live, store, members_of, refresh_topology, discovery_sql,
  health_tick,
}
use prometheus_ch_exporter.Cluster.Topology.Pool.{IsPool, health_tick-IsPool}
use prometheus_ch_exporter.Cluster.Topology.Membership.{store-IsPool, apply_members-IsPool}
use prometheus_ch_exporter.Cluster.Connection.{Connection, Pass, recheck, rediscover, refresh}
use prometheus_ch_exporter.Cluster.Snapshot.{ConnectionStatus, status_snapshot}
use prometheus_ch_exporter.Cluster.Connection.Pick.{pick_one_live-some}

-- A discovery keeps the pool, whatever the seed answers: rows, an error, or a row without a host.
refresh_topology-IsPool :
    (d : Driver) (py : Objects) (spec : ConnectionSpec) (t : Topology) (random now later : ℕ)
    → IsPool t
    → IsPool (refresh_topology d py spec t random now later).0
unfolding refresh_topology
refresh_topology-IsPool d py spec t random now later p =
    elim (Option-cases (pick_one_live t [] random)) [
      | inl nobody ↦ rw (nobody, refresh_topology) p
      | inr (n, picked) ↦
          let chosen = pick_one_live-some t [] random n p picked in
          let (n', answer) = query d n discovery_sql now in
          let kept = store-IsPool t n n' p chosen.0 (query-health d n discovery_sql now).0.0 in
          elim (Result-cases answer) [
            | inr (connection_error message, a) ↦ rw (picked, a, refresh_topology) kept
            | inr (query_error message, a) ↦ rw (picked, a, refresh_topology) kept
            | inr (escaped message, a) ↦ rw (picked, a, refresh_topology) kept
            | inl (rows, a) ↦ elim (Option-cases (members_of py spec.cluster_name rows)) [
              | inl missing ↦ rw (picked, a, missing, refresh_topology) kept
              | inr (members, found) ↦
                  rw (picked, a, found, refresh_topology)
                    (apply_members-IsPool d (store t n') members later kept)
            ]
          ]
    ]

-- What a pass of a connection guarantees.
pub record IsPass (c : Connection) (p : Pass) : Type 0 where
  pub pool : IsPool p.0.topology
  -- The flag is set exactly by a pass that completes, and is never cleared.
  pub ready : p.0.is_ready ≡ (c.is_ready || not (is_err p.1))
  -- The report is that of the pool after the pass.
  pub report : (s : ConnectionStatus) → p.1 ≡ ok s → s ≡ status_snapshot p.0.topology
  pub spec_kept : p.0.spec ≡ c.spec

module _ (d : Driver) (py : Objects) (c : Connection) (random now later : ℕ)
    (p : IsPool c.topology) where
  recheck-IsPass : IsPass c (recheck d c now later)
  unfolding recheck
  recheck-IsPass = record {
    pool = health_tick-IsPool d c.spec c.topology now later p;
    ready = ground arith;
    report = λ s h. ground arith;
    spec_kept = refl;
  }

  rediscover-IsPass : IsPass c (rediscover d py c random now later)
  unfolding rediscover
  rediscover-IsPass =
      elim (Result-cases (refresh_topology d py c.spec c.topology random now later).1) [
        | inl (u, a) ↦
            rw (a, rediscover)
              (record {
                pool = refresh_topology-IsPool d py c.spec c.topology random now later p;
                ready = ground arith;
                report = λ s h. ground arith;
                spec_kept = refl;
              })
        | inr (e, a) ↦
            rw (a, rediscover)
              (record {
                pool = refresh_topology-IsPool d py c.spec c.topology random now later p;
                ready = ground arith;
                report = λ s h. ground arith;
                spec_kept = refl;
              })
      ]

-- Every pass of a connection keeps its pool and its specification, whatever the nodes answer. It
-- marks the connection as ready exactly if it completes, even where no node is live, and never
-- clears the mark. What it reports is the state of the pool that it leaves.
pub passes-IsPass :
    (d : Driver) (py : Objects) (c : Connection) (random now later : ℕ)
    → IsPool c.topology
    → IsPass c (recheck d c now later)
      × IsPass c (rediscover d py c random now later)
      × IsPass c (refresh d py c random now later)
unfolding refresh
passes-IsPass d py c random now later p =
    let checked = health_tick d c.spec c.topology now later in
    let first =
      rediscover-IsPass d py (record c { topology = checked }) random later later
        (health_tick-IsPool d c.spec c.topology now later p) in
    (
      recheck-IsPass d py c random now later p,
      rediscover-IsPass d py c random now later p,
      record {
        pool = first.pool;
        ready = first.ready;
        report = first.report;
        spec_kept = first.spec_kept;
      },
    )
