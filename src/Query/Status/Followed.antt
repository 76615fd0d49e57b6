-- ===== src/Query/Status/Followed.antt =====
-- What `_set_condition` of src/promch/handlers/query_status.py makes of the time of a condition.
use prometheus_ch_exporter.Prelude.{ℕ, String, ◌≡◌, not, Option, none, some, List, []}
use prometheus_ch_exporter.Dict.{get}
use prometheus_ch_exporter.Query.Condition.{Condition, Setting, by_type}
use prometheus_ch_exporter.Query.Status.Conditions.{typed}

-- `after` says what was set at `now`, and its time is that of the condition before it exactly while
-- the status is the same; it is `now` where there was none or the status was another.
pub record Follows (before : Option Condition) (now : ℕ) (set : Setting) (after : Condition)
    : Type 0 where
  pub status : after.status ≡ set.status
  pub reason : after.reason ≡ set.reason
  pub message : after.message ≡ set.message
  pub first : before ≡ none → after.last_transition_time ≡ now
  pub stayed :
      (prev : Condition)
      → before ≡ some prev
      → prev.status ≡ set.status
      → after.last_transition_time ≡ prev.last_transition_time
  pub changed :
      (prev : Condition)
      → before ≡ some prev
      → prev.status ≡ not set.status
      → after.last_transition_time ≡ now

-- The condition of the type is there, and follows the one before it.
abbrev pub IsStated : (before after : List Condition) (now : ℕ) (ctype : String) → Setting → Type 0
IsStated before after now ctype set =
    (c : Condition) × (get (typed after) ctype ≡ some c)
    × Follows (get (by_type [] before) ctype) now set c
