-- ===== src/Collector/Collect/Grouping.antt =====
-- The grouping step of `collect`: user metrics that share a name are merged into one family.
use mathlib.Core.List.{Perm, append-nil, append_assoc, map-append, perm_append_comm}
use mathlib.Core.List.Perm
use prometheus_ch_exporter.Prelude.{
  String, ◌≡◌, refl, sym, ap, true, false, none, List, [], ◌∷◌, ◌++◌, map, arith, ◌==◌, eq_iff,
  if◌then◌else◌, inl, inr, Bool-cases, for_each, ◌&&◌, keep_if,
}
use prometheus_ch_exporter.Dict.{Dict, get, put, IsUnique}
use prometheus_ch_exporter.Dict.Laws.{put-IsUnique}
use prometheus_ch_exporter.Collector.{QueryResult, Entries, row_list}
use prometheus_ch_exporter.Collector.Collect.{
  SampleValue, measured, Sample, Family, Read, is_valid, is_served, append_to, group_reads,
  static_keys, dynamic_keys, values_at, row_sample, user_family, user_families,
}

-- A series as a scrape shows it: its metric, the query that it belongs to, and its value.
abbrev pub Series : Type 0
Series = String × String × SampleValue

-- The rows of one query under a metric name.
abbrev pub row_series : String → Read → List Series
row_series name r = map (λ (row : QueryResult). (name, r.0, measured row.value)) (row_list r.1)

abbrev pub group_series : String × List Read → List Series
group_series (name, rs) = for_each (row_series name) rs

-- What should be served: the rows of each query, under its own metric name.
abbrev pub expected_series : List Read → List Series
expected_series = for_each λ r. if is_served r then row_series r.1.name r else []

for_each-append {ℓ κ} :
    {A : Type ℓ} {B : Type κ} (f : A → List B) (xs ys : List A)
    → for_each f (xs ++ ys) ≡ for_each f xs ++ for_each f ys
for_each-append f [] ys = refl
for_each-append f (x ∷ xs) ys = rw (for_each-append f xs ys) (sym (append_assoc (f x) _ _))

perm_swap_tail {ℓ} : {A : Type ℓ} (a b c : List A) → Perm ((a ++ b) ++ c) ((a ++ c) ++ b)
perm_swap_tail a b c =
    rw (append_assoc a b c) (rw (append_assoc a c b) (Perm.append_left a (perm_append_comm b c)))

append_to_here :
    (groups : Dict (List Read)) (m name : String) (rs : List Read) (r : Read)
    → m == name ≡ true
    → append_to ((m, rs) ∷ groups) name r ≡ (m, rs ++ r ∷ []) ∷ groups
unfolding append_to get put
append_to_here groups m name rs r same = ground (arith, eq_iff m name)

append_to_there :
    (groups : Dict (List Read)) (m name : String) (rs : List Read) (r : Read)
    → m == name ≡ false
    → append_to ((m, rs) ∷ groups) name r ≡ (m, rs) ∷ append_to groups name r
unfolding append_to get put
append_to_there groups m name rs r other = ground arith

append_to-perm :
    (groups : Dict (List Read)) (name : String) (r : Read)
    → Perm
        (for_each group_series (append_to groups name r))
        (for_each group_series groups ++ row_series name r)
append_to-perm [] name r = unfold append_to get put in simp append-nil (Perm.refl _)
append_to-perm ((m, rs) ∷ groups) name r = elim (Bool-cases (m == name)) [
  | inl same ↦
      rw (append_to_here groups m name rs r same, for_each-append (row_series m) rs (r ∷ []))
        (rw (append-nil (row_series m r), ← (eq_iff m name).0 same)
          (perm_swap_tail _ (row_series m r) _))
  | inr other ↦
      rw (append_to_there groups m name rs r other, append_assoc (group_series (m, rs)))
        (Perm.append_left (group_series (m, rs)) (append_to-perm groups name r))
]

group_reads-perm :
    (groups : Dict (List Read)) (rs : List Read)
    → Perm
        (for_each group_series (group_reads groups rs))
        (for_each group_series groups ++ expected_series rs)
unfolding group_reads
group_reads-perm groups [] = rw append-nil (Perm.refl _)
group_reads-perm groups (r ∷ rs) = elim (Bool-cases (is_served r)) [
  | inl served ↦ rw served (
      Perm.trans (group_reads-perm (append_to groups r.1.name r) rs) (
        rw (← append_assoc (for_each group_series groups))
          (Perm.append_right (expected_series rs) (append_to-perm groups r.1.name r))))
  | inr hidden ↦ rw hidden (group_reads-perm groups rs)
]

group_reads-IsUnique :
    (groups : Dict (List Read)) (rs : List Read)
    → IsUnique groups
    → IsUnique (group_reads groups rs)
unfolding group_reads append_to
group_reads-IsUnique groups [] u = u
group_reads-IsUnique groups (r ∷ rs) u = elim (Bool-cases (is_served r)) [
  | inl served ↦
      rw served
        (group_reads-IsUnique (append_to groups r.1.name r) rs (put-IsUnique groups r.1.name _ u))
  | inr hidden ↦ rw hidden (group_reads-IsUnique groups rs u)
]

-- The text at the end of a sample's label values, which carries the query's key.
abbrev pub last_label : List String → String
last_label [] = ""
last_label (x ∷ []) = x
last_label (x ∷ y ∷ ys) = last_label (y ∷ ys)

abbrev pub family_series : Family → List Series
family_series fam = map (λ (s : Sample). (fam.name, last_label s.label_values, s.value)) fam.samples

last_label-append : (xs : List String) (k : String) → last_label (xs ++ k ∷ []) ≡ k
last_label-append [] k = refl
last_label-append (x ∷ []) k = refl
last_label-append (x ∷ y ∷ ys) k = last_label-append (y ∷ ys) k

last_label-append₂ : (xs ys : List String) (k : String) → last_label (xs ++ (ys ++ k ∷ [])) ≡ k
last_label-append₂ xs ys k = rw (← append_assoc xs ys) (last_label-append (xs ++ ys) k)

module _ (name : String) where
  abbrev sample_series : Sample → Series
  sample_series s = (name, last_label s.label_values, s.value)

  rows-series :
      (statics dynamics : List String) (r : Read) (rows : List QueryResult)
      → map sample_series (map (λ row. row_sample statics dynamics r row) rows)
        ≡ map (λ (row : QueryResult). (name, r.0, measured row.value)) rows
  unfolding row_sample
  rows-series statics dynamics r [] = refl
  rows-series statics dynamics r (row ∷ rows) =
      rw
        (last_label-append₂ (values_at r.1.labels statics) (values_at row.dynamic_labels dynamics)
          r.0)
        (ap (◌∷◌ (name, r.0, measured row.value)) (rows-series statics dynamics r rows))

  reads-series :
      (statics dynamics : List String) (group : List Read)
      → map sample_series
          (for_each (λ r. map (λ row. row_sample statics dynamics r row) (row_list r.1)) group)
        ≡ for_each (row_series name) group
  reads-series statics dynamics [] = refl
  reads-series statics dynamics (r ∷ rs) =
      rw (
        map-append,
        rows-series statics dynamics r (row_list r.1),
        reads-series statics dynamics rs,
      )

families-series :
    (groups : Dict (List Read))
    → for_each family_series (map user_family groups) ≡ for_each group_series groups
unfolding user_family
families-series [] = refl
families-series ((name, group) ∷ groups) =
    rw (reads-series name (static_keys group) (dynamic_keys group) group, families-series groups)

abbrev pub by_name : List Family → Dict Family
by_name = map λ fam. (fam.name, fam)

get-by_name :
    (groups : Dict (List Read)) (k : String)
    → get groups k ≡ none
    → get (by_name (map user_family groups)) k ≡ none
unfolding get user_family
get-by_name [] k h = refl
get-by_name ((j, a) ∷ groups) k h = ground (arith, get-by_name groups k)

by_name-IsUnique :
    (groups : Dict (List Read)) → IsUnique groups → IsUnique (by_name (map user_family groups))
unfolding user_family
by_name-IsUnique [] u = tt
by_name-IsUnique ((name, group) ∷ groups) u =
    (get-by_name groups name u.0, by_name-IsUnique groups u.1)

-- What should be served: the rows of each query that is valid and not expired.
abbrev pub served_series : Entries → List Series
served_series = for_each λ r. if is_valid r && is_served r then row_series r.1.name r else []

expected-valid : (es : Entries) → expected_series (keep_if is_valid es) ≡ served_series es
expected-valid [] = refl
expected-valid (r ∷ es) = elim (Bool-cases (is_valid r)) [
  | inl valid ↦
      rw valid (ap (◌++◌ (if is_served r then row_series r.1.name r else [])) (expected-valid es))
  | inr invalid ↦ rw invalid (expected-valid es)
]

-- No two user families of a scrape have the same name. The series that they hold are, in some
-- order and each as often, exactly the rows of the queries that are valid and not expired, each
-- under the metric name of its query and with the query's key as its last label.
pub user_families-perm :
    (es : Entries)
    → IsUnique (by_name (user_families (keep_if is_valid es)))
      × Perm (for_each family_series (user_families (keep_if is_valid es))) (served_series es)
unfolding user_families
user_families-perm es =
    let groups = group_reads [] (keep_if is_valid es) in
    (
      by_name-IsUnique groups (group_reads-IsUnique [] (keep_if is_valid es) tt),
      rw (families-series groups, ← expected-valid es) (group_reads-perm [] (keep_if is_valid es)),
    )
