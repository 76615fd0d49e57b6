-- ===== src/Query/Status/Phases.antt =====
-- What the phase of a query says about its state, in `derive_status` of
-- src/promch/handlers/query_status.py.
use prometheus_ch_exporter.Prelude.{
  ℕ, ◌≡◌, refl, ◌∙◌, ◌↔◌, Bool, true, false, not, ◌||◌, Option, none, some, [], arith, truthy,
  is_some, nonempty,
}
use prometheus_ch_exporter.Dict.{get}
use prometheus_ch_exporter.Collector.{Snapshot}
use prometheus_ch_exporter.Query.Status.{
  Phase, pending, healthy, degraded, failing, expired, invalid, Status, is_availability_error,
  phase_of, derive_status, patched, current_conditions,
}
use prometheus_ch_exporter.Query.Condition.{by_type}
use prometheus_ch_exporter.Query.Status.Conditions.{typed}
use prometheus_ch_exporter.Query.Status.Settled.{derive_valid}
use prometheus_ch_exporter.Query.Status.Repeated.{running_conditions_at, settled_at}

-- A failed run that is no sign of a connection that is still warming up.
abbrev pub has_failed : Snapshot → Bool
has_failed snap = elim snap.last_error [
  | none ↦ false
  | some e ↦ not (is_availability_error e.type) || is_some snap.last_success_ts
]

-- Expired exactly if the collector has expired the query; else degraded or healthy exactly if the
-- last run succeeded, with or without nodes that failed; else failing exactly if the query does not
-- wait for its connection and its last error is a failed run: one that is no availability error, or
-- any error after a first success; pending in all other cases, and never invalid.
pub phase_meaning :
    (snap : Snapshot)
    → ((phase_of snap ≡ expired) ↔ (snap.expired ≡ true))
      × ((phase_of snap ≡ degraded)
          ↔ (snap.expired ≡ false) × (snap.up ≡ true) × (nonempty snap.failed_nodes ≡ true))
      × ((phase_of snap ≡ healthy)
          ↔ (snap.expired ≡ false) × (snap.up ≡ true) × (snap.failed_nodes ≡ []))
      × ((phase_of snap ≡ failing)
          ↔ (snap.expired ≡ false)
            × (snap.up ≡ false)
            × (truthy snap.waiting_reason ≡ false)
            × (has_failed snap ≡ true))
      × ((phase_of snap ≡ pending)
          ↔ (snap.expired ≡ false)
            × (snap.up ≡ false)
            × ((truthy snap.waiting_reason || not (has_failed snap)) ≡ true))
      × ¬ (phase_of snap ≡ invalid)
unfolding phase_of
phase_meaning snap = ground arith

-- The phase that a resource shows after a pass.
abbrev pub shown_phase : Option Snapshot → Phase
shown_phase none = pending
shown_phase (some snap) = elim (truthy snap.invalid_reason) [
  | true ↦ invalid
  | false ↦ phase_of snap
]

pub phase-patched :
    (snap : Option Snapshot) (s : Status) (ttl : ℕ) (clock : ℕ → ℕ)
    → (patched s (derive_status snap s ttl clock)).phase ≡ some (shown_phase snap)
unfolding derive_status patched
phase-patched none s ttl clock = refl
phase-patched (some snap) s ttl clock = ground arith

-- Nothing that a pass over a valid query writes clears what an earlier, invalid specification left
-- in the status: the invalid reason stays as it is, and so does the condition `Valid`.
pub valid_keeps_invalid_marks :
    (snap : Snapshot) (s : Status) (ttl : ℕ) (clock : ℕ → ℕ)
    → truthy snap.invalid_reason ≡ false
    → let after = patched s (derive_status (some snap) s ttl clock) in
      (after.invalid_reason ≡ s.invalid_reason)
      × (get (typed (current_conditions after)) "Valid"
          ≡ get (by_type [] (current_conditions s)) "Valid")
valid_keeps_invalid_marks snap s ttl clock good = rw (derive_valid snap s ttl clock good) (
  unfold patched in refl,
  unfold patched in
      settled_at snap (current_conditions s) clock "Valid"
      ∙ running_conditions_at snap (current_conditions s) clock "Valid",
)
