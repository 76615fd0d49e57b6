-- ===== src/Query/Status/Conditions.antt =====
-- The conditions that `_set_condition` of src/promch/handlers/query_status.py builds.
use mathlib.Core.List.{append-nil, append_assoc}
use prometheus_ch_exporter.Prelude.{
  ℕ, String, ◌≡◌, refl, sym, ◌∙◌, ap, Bool, true, false, none, some, List, [], ◌∷◌, ◌++◌, map,
  arith, eq_iff, All,
}
use prometheus_ch_exporter.Dict.{Dict, get, put, values, IsUnique}
use prometheus_ch_exporter.Dict.Laws.{put-IsUnique, put_same, put_fresh, get-append}
use prometheus_ch_exporter.Query.Condition.{
  Condition, Setting, condition, transition_time, by_type, set_condition,
}

-- A list of conditions as a dictionary by their types.
abbrev pub typed : List Condition → Dict Condition
typed = map λ c. (c.type, c)

-- No type stands twice.
abbrev pub IsDistinct : List Condition → Type 0
IsDistinct cs = IsUnique (typed cs)

abbrev IsTyped : Dict Condition → Type 0
IsTyped = All λ e. e.1.type ≡ e.0

values-typed : (cs : List Condition) → values (typed cs) ≡ cs
values-typed [] = refl
values-typed (c ∷ cs) = ap (◌∷◌ c) (values-typed cs)

typed-values : (d : Dict Condition) → IsTyped d → typed (values d) ≡ d
typed-values [] t = refl
typed-values ((k, c) ∷ d) t = rw (t.0, typed-values d t.1)

put-IsTyped : (d : Dict Condition) (c : Condition) → IsTyped d → IsTyped (put d c.type c)
unfolding put
put-IsTyped [] c t = (refl, tt)
put-IsTyped ((k, x) ∷ d) c t = ground (arith, put-IsTyped d c t.1)

by_type-IsTyped : (d : Dict Condition) (cs : List Condition) → IsTyped d → IsTyped (by_type d cs)
unfolding by_type
by_type-IsTyped d [] t = t
by_type-IsTyped d (c ∷ cs) t = by_type-IsTyped (put d c.type c) cs (put-IsTyped d c t)

by_type-IsUnique : (d : Dict Condition) (cs : List Condition) → IsUnique d → IsUnique (by_type d cs)
unfolding by_type
by_type-IsUnique d [] u = u
by_type-IsUnique d (c ∷ cs) u = by_type-IsUnique (put d c.type c) cs (put-IsUnique d c.type c u)

-- None of the conditions has a type of `d`.
abbrev Apart : Dict Condition → List Condition → Type 0
Apart d = All λ c. get d c.type ≡ none

Apart-snoc :
    (d : Dict Condition) (c : Condition) (cs : List Condition)
    → Apart d cs
    → get (typed cs) c.type ≡ none
    → Apart (d ++ (c.type, c) ∷ []) cs
unfolding get
Apart-snoc d c [] a h = tt
Apart-snoc d c (x ∷ cs) a h = (
  ground
      (arith, get-append d ((c.type, c) ∷ []) x.type, eq_iff c.type x.type, eq_iff x.type c.type),
  Apart-snoc d c cs a.1 (ground arith),
)

by_type_fresh :
    (d : Dict Condition) (cs : List Condition)
    → IsDistinct cs
    → Apart d cs
    → by_type d cs ≡ d ++ typed cs
unfolding by_type
by_type_fresh d [] u a = sym (append-nil d)
by_type_fresh d (c ∷ cs) u a = rw (put_fresh d c.type c a.0) (
    by_type_fresh (d ++ (c.type, c) ∷ []) cs u.1 (Apart-snoc d c cs a.1 u.0)
    ∙ append_assoc d ((c.type, c) ∷ []) (typed cs))

Apart-nil : (cs : List Condition) → Apart [] cs
unfolding get
Apart-nil [] = tt
Apart-nil (c ∷ cs) = (refl, Apart-nil cs)

pub by_type_distinct : (cs : List Condition) → IsDistinct cs → by_type [] cs ≡ typed cs
by_type_distinct cs u = by_type_fresh [] cs u (Apart-nil cs)

pub typed-set_condition :
    (cs : List Condition) (now : ℕ) (ctype : String) (set : Setting)
    → typed (set_condition cs now ctype set)
      ≡ put
          (by_type [] cs)
          ctype
          (condition ctype set (transition_time (get (by_type [] cs) ctype) set.status now))
unfolding set_condition
typed-set_condition cs now ctype set = typed-values _ (
    put-IsTyped (by_type [] cs)
      (condition ctype set (transition_time (get (by_type [] cs) ctype) set.status now))
      (by_type-IsTyped [] cs tt))

pub set_condition-IsDistinct :
    (cs : List Condition) (now : ℕ) (ctype : String) (set : Setting)
    → IsDistinct (set_condition cs now ctype set)
set_condition-IsDistinct cs now ctype set =
    rw (typed-set_condition cs now ctype set)
      (put-IsUnique (by_type [] cs) ctype _ (by_type-IsUnique [] cs tt))

transition_time_same :
    (status : Bool) (c : Condition) (now : ℕ)
    → c.status ≡ status
    → transition_time (some c) status now ≡ c.last_transition_time
transition_time_same true c now h = rw h
transition_time_same false c now h = rw h

-- Setting a condition again to what it says changes nothing, whatever the time.
pub set_condition_same :
    (cs : List Condition) (now time : ℕ) (ctype : String) (set : Setting)
    → IsDistinct cs
    → get (typed cs) ctype ≡ some (condition ctype set time)
    → set_condition cs now ctype set ≡ cs
unfolding set_condition
set_condition_same cs now time ctype set u h =
    rw
      (
        by_type_distinct cs u,
        h,
        transition_time_same set.status (condition ctype set time) now refl,
      )
      (ap values (put_same (typed cs) ctype (condition ctype set time) h) ∙ values-typed cs)
