-- ===== src/Query/Condition.antt =====
-- The conditions of a status and `_set_condition` (src/promch/handlers/query_status.py). Times are
-- microseconds, and stand for the ISO texts in UTC, which have their order.
use prometheus_ch_exporter.Prelude.{
  ℕ, String, Bool, true, false, Option, none, some, List, [], ◌∷◌, leb, if◌then◌else◌,
}
use prometheus_ch_exporter.Dict.{Dict, get, put, values}

-- `status` is true for "True" and false for "False".
pub record Condition : Type 0 where
  pub type : String
  pub status : Bool
  pub last_transition_time : ℕ
  pub reason : String
  pub message : String

-- `{c["type"]: dict(c) for c in conditions}`, from a dictionary that is there.
unfoldable pub by_type : Dict Condition → List Condition → Dict Condition
by_type d [] = d
by_type d (c ∷ cs) = by_type (put d c.type c) cs

abbrev pub transition_time : Option Condition → Bool → ℕ → ℕ
transition_time none status now = now
transition_time (some prev) true now = if prev.status then prev.last_transition_time else now
transition_time (some prev) false now = if prev.status then now else prev.last_transition_time

-- What a call of `_set_condition` states of one type.
pub record Setting : Type 0 where
  pub status : Bool
  pub reason : String
  pub message : String

abbrev pub condition : (ctype : String) → Setting → (time : ℕ) → Condition
condition ctype set time = record {
  type = ctype;
  status = set.status;
  last_transition_time = time;
  reason = set.reason;
  message = set.message;
}

-- `_set_condition`, on the conditions that it starts from: `out`'s, or else the current ones.
unfoldable pub set_condition :
    (conditions : List Condition) (now : ℕ) (ctype : String) → Setting → List Condition
unfolding by_type
set_condition conditions now ctype set =
    let d = by_type [] conditions in
    values (put d ctype (condition ctype set (transition_time (get d ctype) set.status now)))

-- `conditions.sort(key=…, reverse=True)`: newest first, and equal times keep their order.
unfoldable pub insert_condition : Condition → List Condition → List Condition
insert_condition c [] = c ∷ []
insert_condition c (x ∷ xs) =
    if leb x.last_transition_time c.last_transition_time
    then c ∷ x ∷ xs
    else x ∷ insert_condition c xs

unfoldable pub sort_conditions : List Condition → List Condition
unfolding insert_condition
sort_conditions [] = []
sort_conditions (c ∷ cs) = insert_condition c (sort_conditions cs)
