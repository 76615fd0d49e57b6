-- ===== src/Query/Status/Ordering.antt =====
-- The order of the conditions: `conditions.sort(…, reverse=True)` of
-- src/promch/handlers/query_status.py.
use prometheus_ch_exporter.Prelude.{
  ℕ, ◌≤◌, String, ◌≡◌, refl, ◌∙◌, none, some, List, [], ◌∷◌, arith, ◌==◌, eq_iff, if◌then◌else◌,
  All, inl, inr, Bool-cases, leb,
}
use prometheus_ch_exporter.Dict.{get}
use prometheus_ch_exporter.Query.Condition.{Condition, insert_condition, sort_conditions}
use prometheus_ch_exporter.Query.Status.Conditions.{typed, IsDistinct}

-- No condition is newer than one before it.
abbrev pub IsNewestFirst : List Condition → Type 0
IsNewestFirst [] = Unit
IsNewestFirst (c ∷ cs) =
    All (λ (x : Condition). x.last_transition_time ≤ c.last_transition_time) cs × IsNewestFirst cs

module _ (t : ℕ) where
  abbrev NoneNewer : List Condition → Type 0
  NoneNewer = All λ (x : Condition). x.last_transition_time ≤ t

  insert-NoneNewer :
      (c : Condition) (cs : List Condition)
      → c.last_transition_time ≤ t
      → NoneNewer cs
      → NoneNewer (insert_condition c cs)
  unfolding insert_condition
  insert-NoneNewer c [] h a = (h, tt)
  insert-NoneNewer c (x ∷ xs) h a = ground (arith, insert-NoneNewer c xs h a.1)

NoneNewer-mono : (t t' : ℕ) (cs : List Condition) → t ≤ t' → NoneNewer t cs → NoneNewer t' cs
NoneNewer-mono t t' [] h a = tt
NoneNewer-mono t t' (c ∷ cs) h a = (omega arith, NoneNewer-mono t t' cs h a.1)

insert-IsNewestFirst :
    (c : Condition) (cs : List Condition) → IsNewestFirst cs → IsNewestFirst (insert_condition c cs)
unfolding insert_condition
insert-IsNewestFirst c [] s = (tt, tt)
insert-IsNewestFirst c (x ∷ xs) s =
    elim (Bool-cases (leb x.last_transition_time c.last_transition_time)) [
      | inl older ↦ rw older (
        (
          ground arith,
          NoneNewer-mono x.last_transition_time c.last_transition_time xs (ground arith) s.0,
        ),
        s,
      )
      | inr newer ↦ rw newer (
        insert-NoneNewer x.last_transition_time c xs (ground arith) s.0,
        insert-IsNewestFirst c xs s.1,
      )
    ]

pub sort_conditions-IsNewestFirst : (cs : List Condition) → IsNewestFirst (sort_conditions cs)
unfolding sort_conditions
sort_conditions-IsNewestFirst [] = tt
sort_conditions-IsNewestFirst (c ∷ cs) =
    insert-IsNewestFirst c (sort_conditions cs) (sort_conditions-IsNewestFirst cs)

insert_front :
    (c : Condition) (cs : List Condition)
    → NoneNewer c.last_transition_time cs
    → insert_condition c cs ≡ c ∷ cs
unfolding insert_condition
insert_front c [] a = refl
insert_front c (x ∷ xs) a = ground arith

-- Sorting a sorted list changes nothing.
pub sort_conditions_sorted : (cs : List Condition) → IsNewestFirst cs → sort_conditions cs ≡ cs
unfolding sort_conditions
sort_conditions_sorted [] s = refl
sort_conditions_sorted (c ∷ cs) s = rw (sort_conditions_sorted cs s.1) (insert_front c cs s.0)

get-typed_insert :
    (c : Condition) (cs : List Condition) (k : String)
    → get (typed cs) c.type ≡ none
    → get (typed (insert_condition c cs)) k ≡ (if c.type == k then some c else get (typed cs) k)
unfolding insert_condition get
get-typed_insert c [] k h = refl
get-typed_insert c (x ∷ xs) k h =
    ground (arith, eq_iff c.type k, eq_iff x.type k, eq_iff x.type c.type, get-typed_insert c xs k)

-- Sorting keeps the condition of each type.
pub get-typed_sort :
    (cs : List Condition) (k : String)
    → IsDistinct cs
    → get (typed (sort_conditions cs)) k ≡ get (typed cs) k
unfolding sort_conditions get
get-typed_sort [] k u = refl
get-typed_sort (c ∷ cs) k u =
    get-typed_insert c (sort_conditions cs) k (get-typed_sort cs c.type u.1 ∙ u.0)
    ∙ rw (get-typed_sort cs k u.1)

insert-IsDistinct :
    (c : Condition) (cs : List Condition)
    → get (typed cs) c.type ≡ none
    → IsDistinct cs
    → IsDistinct (insert_condition c cs)
unfolding insert_condition get
insert-IsDistinct c [] h u = (refl, tt)
insert-IsDistinct c (x ∷ xs) h u =
    elim (Bool-cases (leb x.last_transition_time c.last_transition_time)) [
      | inl older ↦ rw older (h, u)
      | inr newer ↦ rw newer (
        get-typed_insert c xs x.type (ground arith)
            ∙ ground (arith, eq_iff c.type x.type, eq_iff x.type c.type),
        insert-IsDistinct c xs (ground arith) u.1,
      )
    ]

pub sort_conditions-IsDistinct :
    (cs : List Condition) → IsDistinct cs → IsDistinct (sort_conditions cs)
unfolding sort_conditions
sort_conditions-IsDistinct [] u = tt
sort_conditions-IsDistinct (c ∷ cs) u =
    insert-IsDistinct c (sort_conditions cs) (get-typed_sort cs c.type u.1 ∙ u.0)
      (sort_conditions-IsDistinct cs u.1)
