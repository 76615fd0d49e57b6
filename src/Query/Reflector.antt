-- ===== src/Query/Reflector.antt =====
-- `status_reflector` of src/promch/handlers/query.py, but for the patch: the event that a pass emits,
-- with `_event_signature` and `_phase_detail`.
pub mod Events
use prometheus_ch_exporter.Prelude.{
  String, ◌<>◌, Bool, true, false, not, ◌&&◌, Option, none, some, List, [], ◌∷◌, ◌==◌,
  if◌then◌else◌, truthy, nonempty, text_truthy, contains,
}
use prometheus_ch_exporter.Prelude.Sorting.{text_le}
use prometheus_ch_exporter.Prelude.Text.{join}
use prometheus_ch_exporter.Collector.{LastError, Snapshot}
use prometheus_ch_exporter.Query.Status.{
  Phase, pending, healthy, degraded, failing, expired, invalid, Status, Running, Desired,
  waiting_for_collector, misconfigured, running, reason_text,
}

abbrev pub phase_name : Phase → String
phase_name pending = "Pending"
phase_name healthy = "Healthy"
phase_name degraded = "Degraded"
phase_name failing = "Failing"
phase_name expired = "Expired"
phase_name invalid = "Invalid"

-- `sorted(nodes)`
unfoldable pub place_text : String → List String → List String
place_text s [] = s ∷ []
place_text s (t ∷ ts) = if text_le s t then s ∷ t ∷ ts else t ∷ place_text s ts

unfoldable pub sort_texts : List String → List String
unfolding place_text
sort_texts [] = []
sort_texts (s ∷ ss) = place_text s (sort_texts ss)

-- What `_event_signature` returns.
pub record Signature : Type 0 where
  pub phase : Option String
  pub failed_nodes : List String
  pub error_type : Option String

abbrev pub nodes_of : Option (List String) → List String
nodes_of none = []
nodes_of (some nodes) = nodes

abbrev pub type_of : Option LastError → Option String
type_of none = none
type_of (some e) = some e.type

unfoldable pub status_signature : Status → Signature
unfolding sort_texts
status_signature s = record {
  phase = elim s.phase [ none ↦ none | some p ↦ some (phase_name p) ];
  failed_nodes = sort_texts (nodes_of s.failed_nodes);
  error_type = type_of s.last_error;
}

-- A key that the desired status does not have reads as None.
unfoldable pub desired_signature : Desired → Signature
unfolding sort_texts
desired_signature waiting_for_collector = record {
  phase = some "Pending";
  failed_nodes = [];
  error_type = none;
}
desired_signature (misconfigured reason conditions) = record {
  phase = some "Invalid";
  failed_nodes = [];
  error_type = none;
}
desired_signature (running r) = record {
  phase = some (phase_name r.phase);
  failed_nodes = sort_texts r.failed_nodes;
  error_type = type_of r.last_error;
}

-- `==` of texts, of lists and of optional texts.
abbrev pub texts_eq : List String → List String → Bool
texts_eq [] [] = true
texts_eq (s ∷ ss) (t ∷ ts) = (s == t) && texts_eq ss ts
texts_eq _ _ = false

abbrev pub option_eq : Option String → Option String → Bool
option_eq none none = true
option_eq (some s) (some t) = s == t
option_eq _ _ = false

abbrev pub signature_eq : Signature → Signature → Bool
signature_eq a b =
    option_eq a.phase b.phase
    && texts_eq a.failed_nodes b.failed_nodes
    && option_eq a.error_type b.error_type

-- `_phase_detail`
unfoldable pub phase_detail : Option Snapshot → String
unfolding join
phase_detail none = ""
phase_detail (some snap) =
    if truthy snap.waiting_reason
    then reason_text snap.waiting_reason
    else if nonempty snap.failed_nodes
    then "nodes not responding: " <> join ", " snap.failed_nodes
    else if snap.up
    then ""
    else elim snap.last_error [ none ↦ "" | some e ↦ e.type <> (": " <> e.message) ]

-- A Kubernetes event; it is a warning or normal.
pub record EventText : Type 0 where
  pub is_warning : Bool
  pub reason : String
  pub message : String

abbrev pub phase_text : Option String → String
phase_text none = ""
phase_text (some p) = p

abbrev pub warns : String → Bool
warns phase = contains ("Failing" ∷ "Expired" ∷ "Degraded" ∷ "Invalid" ∷ []) phase

abbrev pub old_phase : Status → String
old_phase s = elim s.phase [ none ↦ "None" | some p ↦ phase_name p ]

-- The event of a pass over the status `s`, if it emits one; each desired status has a phase.
unfoldable pub emitted : Status → Option Snapshot → Desired → Option EventText
unfolding status_signature desired_signature phase_detail
emitted s snap d =
    let old = old_phase s in
    let new = phase_text (desired_signature d).phase in
    let detail = phase_detail snap in
    if signature_eq (status_signature s) (desired_signature d)
    then none
    else some (record {
      is_warning = warns new;
      reason = new;
      message = old <> (" -> " <> (new <> (if text_truthy detail then ": " <> detail else "")));
    })
