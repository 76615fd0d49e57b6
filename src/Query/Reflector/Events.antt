-- ===== src/Query/Reflector/Events.antt =====
-- When the reflector of src/promch/handlers/query.py emits an event again.
use prometheus_ch_exporter.Prelude.{
  ℕ, String, ◌≡◌, refl, ◌∙◌, ap, true, false, not, ◌||◌, Option, none, some, List, [], ◌∷◌, arith,
  eq_refl, truthy, nonempty, is_some,
}
use prometheus_ch_exporter.Collector.{Snapshot}
use prometheus_ch_exporter.Query.Status.{
  Status, Running, Desired, misconfigured, running, derive_status, fresh_error, patched,
}
use prometheus_ch_exporter.Query.Condition.{Condition}
use prometheus_ch_exporter.Query.Status.Settled.{
  derive_status-settled, derive_valid, derive_invalid,
}
use prometheus_ch_exporter.Query.Reflector.{
  sort_texts, place_text, status_signature, desired_signature, signature_eq, texts_eq, option_eq,
  emitted, nodes_of, type_of, phase_name,
}

texts_eq_refl : (ss : List String) → texts_eq ss ss ≡ true
texts_eq_refl [] = refl
texts_eq_refl (s ∷ ss) = ground (arith, eq_refl s, texts_eq_refl ss)

option_eq_refl : (s : Option String) → option_eq s s ≡ true
option_eq_refl none = refl
option_eq_refl (some s) = eq_refl s

nonempty-place_text : (s : String) (ss : List String) → nonempty (place_text s ss) ≡ true
unfolding place_text
nonempty-place_text s [] = refl
nonempty-place_text s (t ∷ ts) = ground arith

nonempty-sort_texts : (ss : List String) → nonempty (sort_texts ss) ≡ nonempty ss
unfolding sort_texts
nonempty-sort_texts [] = refl
nonempty-sort_texts (s ∷ ss) = nonempty-place_text s (sort_texts ss)

is_some-emitted :
    (s : Status) (snap : Option Snapshot) (d : Desired)
    → is_some (emitted s snap d) ≡ not (signature_eq (status_signature s) (desired_signature d))
unfolding emitted
is_some-emitted s snap d = ground arith

-- A written status of a running query has the signature that was desired.
running-same :
    (s : Status) (r : Running)
    → signature_eq (status_signature (patched s (running r))) (desired_signature (running r)) ≡ true
unfolding patched status_signature desired_signature
running-same s r = ground (
  arith,
  eq_refl (phase_name r.phase),
  texts_eq_refl (sort_texts r.failed_nodes),
  option_eq_refl (type_of r.last_error),
)

-- A status with old failed nodes or an old error keeps them where the query is invalid.
invalid_differs :
    (s : Status) (reason : String) (cs cs' : List Condition)
    → (nonempty (nodes_of s.failed_nodes) || is_some s.last_error) ≡ true
    → signature_eq
        (status_signature (patched s (misconfigured reason cs)))
        (desired_signature (misconfigured reason cs'))
      ≡ false
unfolding patched status_signature desired_signature
invalid_differs s reason cs cs' old = ground (arith, nonempty-sort_texts (nodes_of s.failed_nodes))

-- Once the status of a valid query has been written, the next pass over the unchanged query emits
-- no event, at any later time at which the last error is as fresh as it was.
pub emitted-once :
    (snap : Snapshot) (s : Status) (ttl : ℕ) (clock later : ℕ → ℕ)
    → truthy snap.invalid_reason ≡ false
    → fresh_error snap.last_error (later 0) ttl ≡ fresh_error snap.last_error (clock 0) ttl
    → let s' = patched s (derive_status (some snap) s ttl clock) in
      is_some (emitted s' (some snap) (derive_status (some snap) s' ttl later)) ≡ false
emitted-once snap s ttl clock later good fresh =
    rw ((derive_status-settled snap s ttl clock later fresh).0) (
      rw (derive_valid snap s ttl clock good)
        (is_some-emitted _ (some snap) _ ∙ ap not (running-same s _)))

-- An invalid query whose status has failed nodes or an error from an earlier run emits an event at
-- every pass, the next pass over the status that a pass has just written included.
pub emitted-again :
    (snap : Snapshot) (s : Status) (ttl : ℕ) (clock later : ℕ → ℕ)
    → truthy snap.invalid_reason ≡ true
    → (nonempty (nodes_of s.failed_nodes) || is_some s.last_error) ≡ true
    → let s' = patched s (derive_status (some snap) s ttl clock) in
      is_some (emitted s' (some snap) (derive_status (some snap) s' ttl later)) ≡ true
emitted-again snap s ttl clock later bad old =
    rw (derive_invalid snap s ttl clock bad, derive_invalid snap _ ttl later bad)
      (is_some-emitted _ (some snap) _ ∙ ap not (invalid_differs s _ _ _ old))
