-- ===== src/Leadership.antt =====
-- src/promch/leadership.py and the places of src/promch/handlers/query.py that call it: whether this
-- replica exports the metrics of the queries.
pub mod Gate
use prometheus_ch_exporter.Prelude.{
  Bool, true, false, Option, none, some, List, [], ◌∷◌, ◌||◌, if◌then◌else◌,
}

-- The flags of kopf's `DaemonStoppingReason` that matter here; a reason is a set of flags.
pub data StoppingFlag : Type 0 where
  resource_deleted filters_mismatch daemon_signalled operator_pausing operator_exiting :
      StoppingFlag

abbrev pub StoppingReason : Type 0
StoppingReason = List StoppingFlag

abbrev pub is_pausing : StoppingFlag → Bool
is_pausing operator_pausing = true
is_pausing _ = false

-- `DaemonStoppingReason.OPERATOR_PAUSING in reason`
abbrev pub has_pausing : StoppingReason → Bool
has_pausing [] = false
has_pausing (f ∷ fs) = is_pausing f || has_pausing fs

-- `_active`; each function returns the flag that it leaves.
abbrev pub initially_active : Bool
initially_active = true

unfoldable pub is_active : Bool → Bool
is_active active = active

unfoldable pub mark_active : Bool → Bool
mark_active active = true

unfoldable pub mark_standby : Bool → Bool
mark_standby active = false

unfoldable pub note_daemon_stopped : Bool → Option StoppingReason → Bool
note_daemon_stopped active none = active
note_daemon_stopped active (some reason) = if has_pausing reason then false else active

-- The part of `startup` that sets the flag.
unfoldable pub startup : (peering_enabled : Bool) → Bool → Bool
unfolding mark_standby
startup peering_enabled active = if peering_enabled then mark_standby active else active

-- What kopf does to this replica: a query daemon starts, or one stops for a reason.
pub data Event : Type 0 where
  daemon_started : Event
  daemon_stopped : Option StoppingReason → Event

-- The entry to `query_scheduler`, and its `finally`.
unfoldable pub handle : Bool → Event → Bool
unfolding mark_active note_daemon_stopped
handle active daemon_started = mark_active active
handle active (daemon_stopped reason) = note_daemon_stopped active reason

-- The flag after events, the latest one first.
unfoldable pub after : (peering_enabled : Bool) → List Event → Bool
unfolding startup handle
after peering_enabled [] = startup peering_enabled initially_active
after peering_enabled (e ∷ earlier) = handle (after peering_enabled earlier) e
