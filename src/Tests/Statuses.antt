-- ===== src/Tests/Statuses.antt =====
-- The status of a query (src/promch/handlers/query_status.py): a run that failed, a valid query
-- whose status has the marks of an invalid one, and the flag of the replica.
use prometheus_ch_exporter.Prelude.{
  ℕ, ◌≡◌, refl, true, false, not, ◌||◌, ◌↔◌, none, some, List, [], ◌∷◌, nonempty, truthy,
}
use prometheus_ch_exporter.Collector.{Snapshot, snapshot_of, LastError}
use prometheus_ch_exporter.Query.Status.{
  pending, healthy, degraded, failing, expired, invalid, Status, phase_of, derive_status, patched,
  fresh_error,
}
use prometheus_ch_exporter.Query.Condition.{Condition}
use prometheus_ch_exporter.Query.Status.Settled.{derive_status-settled}
use prometheus_ch_exporter.Query.Status.Phases.{has_failed, phase_meaning}
use prometheus_ch_exporter.Leadership.{
  is_active, daemon_started, daemon_stopped, operator_pausing, after,
}
use prometheus_ch_exporter.Leadership.Gate.{leads, after-leads}
use prometheus_ch_exporter.Prelude.{is_some}
use prometheus_ch_exporter.Query.Reflector.{emitted}
use prometheus_ch_exporter.Query.Reflector.Events.{emitted-once}
use prometheus_ch_exporter.Tests.Metrics.{hits}

abbrev boom : LastError
boom = record { type = "QueryError"; message = "boom"; timestamp = 2000 }

abbrev failing_snap : Snapshot
failing_snap = record (snapshot_of hits) {
  up = false;
  last_error = some boom;
  consecutive_failures = 1;
}

abbrev was_invalid : List Condition
was_invalid =
    record {
      type = "Valid";
      status = false;
      last_transition_time = 500;
      reason = "InvalidConfiguration";
      message = "bad label";
    }
    ∷ []

abbrev old_status : Status
old_status = record {
  phase = some invalid;
  invalid_reason = some "bad label";
  consecutive_failures = none;
  skipped_ticks = none;
  last_success = none;
  last_error = none;
  failed_nodes = none;
  conditions = some was_invalid;
}

abbrev clock : ℕ → ℕ
clock n = 3000

abbrev later : ℕ → ℕ
later n = 4000

derive_status-settled_example :
    let d = derive_status (some failing_snap) old_status 600000 clock in
    (derive_status (some failing_snap) (patched old_status d) 600000 later ≡ d)
    × (patched (patched old_status d) d ≡ patched old_status d)
unfolding fresh_error
derive_status-settled_example =
    derive_status-settled failing_snap old_status 600000 clock later refl

phase_meaning_example :
    ((phase_of failing_snap ≡ expired) ↔ (failing_snap.expired ≡ true))
    × ((phase_of failing_snap ≡ degraded)
        ↔ (failing_snap.expired ≡ false)
          × (failing_snap.up ≡ true)
          × (nonempty failing_snap.failed_nodes ≡ true))
    × ((phase_of failing_snap ≡ healthy)
        ↔ (failing_snap.expired ≡ false)
          × (failing_snap.up ≡ true)
          × (failing_snap.failed_nodes ≡ []))
    × ((phase_of failing_snap ≡ failing)
        ↔ (failing_snap.expired ≡ false)
          × (failing_snap.up ≡ false)
          × (truthy failing_snap.waiting_reason ≡ false)
          × (has_failed failing_snap ≡ true))
    × ((phase_of failing_snap ≡ pending)
        ↔ (failing_snap.expired ≡ false)
          × (failing_snap.up ≡ false)
          × ((truthy failing_snap.waiting_reason || not (has_failed failing_snap)) ≡ true))
    × ¬ (phase_of failing_snap ≡ invalid)
phase_meaning_example = phase_meaning failing_snap

after-leads_example :
    is_active (
      after true
        (daemon_stopped none ∷ daemon_started ∷ daemon_stopped (some (operator_pausing ∷ [])) ∷ []))
    ≡ leads
        (not true)
        (daemon_stopped none ∷ daemon_started ∷ daemon_stopped (some (operator_pausing ∷ [])) ∷ [])
after-leads_example =
    after-leads true
      (daemon_stopped none ∷ daemon_started ∷ daemon_stopped (some (operator_pausing ∷ [])) ∷ [])

emitted-once_example :
    is_some (
      emitted
        (patched old_status (derive_status (some failing_snap) old_status 600000 clock))
        (some failing_snap)
        (derive_status
          (some failing_snap)
          (patched old_status (derive_status (some failing_snap) old_status 600000 clock))
          600000
          later))
    ≡ false
unfolding fresh_error
emitted-once_example = emitted-once failing_snap old_status 600000 clock later refl refl

abbrev invalid_snap : Snapshot
invalid_snap = record failing_snap { invalid_reason = some "bad label" }

-- A run failed before the query became invalid.
abbrev failed_before : Status
failed_before = record old_status { last_error = some boom }
