-- ===== src/Query/Status/Settled.antt =====
-- Repeated passes of the status reflector of src/promch/handlers/query.py over one query.
use prometheus_ch_exporter.Prelude.{
  ℕ, ◌≡◌, refl, ap, true, false, some, arith, inl, inr, Bool-cases, truthy,
}
use prometheus_ch_exporter.Collector.{Snapshot}
use prometheus_ch_exporter.Query.Status.{
  Status, Desired, misconfigured, running, waiting_for_collector, current_conditions,
  running_conditions, fresh_error, derive_status, patched, reason_text, phase_of, success_of,
}
use prometheus_ch_exporter.Query.Condition.{sort_conditions}
use prometheus_ch_exporter.Query.Status.Repeated.{
  invalid_conditions, invalid_conditions_settled, running_settled,
}

patched_twice : (s : Status) (d : Desired) → patched (patched s d) d ≡ patched s d
unfolding patched
patched_twice s waiting_for_collector = refl
patched_twice s (misconfigured reason cs) = refl
patched_twice s (running r) = ground arith

pub derive_invalid :
    (snap : Snapshot) (s : Status) (ttl : ℕ) (clock : ℕ → ℕ)
    → truthy snap.invalid_reason ≡ true
    → derive_status (some snap) s ttl clock
      ≡ misconfigured
          (reason_text snap.invalid_reason)
          (invalid_conditions snap (current_conditions s) (clock 0))
unfolding derive_status
derive_invalid snap s ttl clock bad = rw bad

pub derive_valid :
    (snap : Snapshot) (s : Status) (ttl : ℕ) (clock : ℕ → ℕ)
    → truthy snap.invalid_reason ≡ false
    → derive_status (some snap) s ttl clock
      ≡ running (record {
        phase = phase_of snap;
        consecutive_failures = snap.consecutive_failures;
        skipped_ticks = snap.skipped_total;
        last_success = success_of snap;
        last_error = fresh_error snap.last_error (clock 0) ttl;
        failed_nodes = snap.failed_nodes;
        conditions = sort_conditions (running_conditions snap (current_conditions s) clock);
      })
unfolding derive_status
derive_valid snap s ttl clock good = rw good

-- A pass over an unchanged query changes nothing: from the status that a pass has left, at any
-- later time at which the last error is as fresh as it was, the next pass desires the same status
-- and leaves it as it is.
pub derive_status-settled :
    (snap : Snapshot) (s : Status) (ttl : ℕ) (clock later : ℕ → ℕ)
    → fresh_error snap.last_error (later 0) ttl ≡ fresh_error snap.last_error (clock 0) ttl
    → let d = derive_status (some snap) s ttl clock in
      (derive_status (some snap) (patched s d) ttl later ≡ d)
      × (patched (patched s d) d ≡ patched s d)
derive_status-settled snap s ttl clock later fresh =
    elim (Bool-cases (truthy snap.invalid_reason)) [
      | inl bad ↦
          rw (derive_invalid snap s ttl clock bad, derive_invalid snap _ ttl later bad)
            (
              unfold patched in
                  ap (misconfigured (reason_text snap.invalid_reason))
                    (invalid_conditions_settled snap (current_conditions s) (clock 0) (later 0)),
              patched_twice s _,
            )
      | inr good ↦
          rw (derive_valid snap s ttl clock good, derive_valid snap _ ttl later good, fresh)
            (
              unfold patched in rw (running_settled snap (current_conditions s) clock later),
              patched_twice s _,
            )
    ]
