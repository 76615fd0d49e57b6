-- ===== src/Leadership/Gate.antt =====
-- When a replica is the leader, by the history of its daemons (src/promch/leadership.py).
use prometheus_ch_exporter.Prelude.{
  ◌≡◌, refl, Bool, true, false, not, none, some, List, [], ◌∷◌, arith, if◌then◌else◌,
}
use prometheus_ch_exporter.Leadership.{
  has_pausing, Event, daemon_started, daemon_stopped, is_active, after,
}

-- The daemon stops because a peer of higher priority takes over.
abbrev pub is_pause : Event → Bool
is_pause (daemon_stopped (some reason)) = has_pausing reason
is_pause _ = false

abbrev pub is_start : Event → Bool
is_start daemon_started = true
is_start _ = false

-- The last start or pause, looking back from now, was a start; `at_start` is the answer if
-- there was neither.
abbrev pub leads : (at_start : Bool) → List Event → Bool
leads at_start [] = at_start
leads at_start (e ∷ earlier) =
    if is_start e then true else if is_pause e then false else leads at_start earlier

-- A replica leads exactly if, among its starts of query daemons and its pauses for a peer, the last
-- was a start; with neither, exactly if peering is off. A daemon that stops for any other reason, or
-- for none, changes nothing.
pub after-leads :
    (peering_enabled : Bool) (events : List Event)
    → is_active (after peering_enabled events) ≡ leads (not peering_enabled) events
unfolding is_active after
after-leads peering_enabled [] = ground arith
after-leads peering_enabled (daemon_started ∷ earlier) = refl
after-leads peering_enabled (daemon_stopped none ∷ earlier) = after-leads peering_enabled earlier
after-leads peering_enabled (daemon_stopped (some reason) ∷ earlier) =
    ground (arith, after-leads peering_enabled earlier)
