-- ===== src/Collector/Collect/Labels.antt =====
-- The labels of the user metrics of a scrape: one schema for each family, and what each series
-- shows under a label.
use prometheus_ch_exporter.Prelude.{
  String, ◌≡◌, refl, ◌∙◌, ap, Bool, none, some, List, [], ◌∷◌, ◌++◌, map, arith, ◌==◌, eq_iff,
  if◌then◌else◌, for_each, ◌||◌, length, length-append, length-map, All, All-append, contains,
  any_of, fun_ext,
}
use prometheus_ch_exporter.Prelude.Sorting.{contains-sorted_set}
use prometheus_ch_exporter.Dict.{Dict, get, put, get_or, keys, has}
use prometheus_ch_exporter.Dict.Laws.{get-put, contains-keys-has}
use prometheus_ch_exporter.Collector.{QueryResult, row_list}
use prometheus_ch_exporter.Collector.Collect.{
  Sample, Family, Read, static_keys, dynamic_keys, values_at, row_sample, user_family,
  user_families, group_reads,
}

-- Each series has as many label values as its family has label names.
abbrev pub IsRectangular : Family → Type 0
IsRectangular fam = All (λ (s : Sample). length s.label_values ≡ length fam.label_names) fam.samples

length-values_at :
    (labels : Dict String) (ks : List String) → length (values_at labels ks) ≡ length ks
unfolding values_at
length-values_at labels ks = length-map _ ks

-- Label names and values read as a Python dict, `dict(zip(names, values))`: a later one wins.
unfoldable pub as_dict : Dict String → List String → List String → Dict String
as_dict acc [] vs = acc
as_dict acc (n ∷ ns) [] = acc
as_dict acc (n ∷ ns) (v ∷ vs) = as_dict (put acc n v) ns vs

-- Zipping the values of `labels` at `ks` overwrites the labels in `ks`.
as_dict-values_at :
    (acc labels : Dict String) (ks ns vs : List String)
    → as_dict acc (ks ++ ns) (values_at labels ks ++ vs)
      ≡ as_dict (as_dict acc ks (values_at labels ks)) ns vs
unfolding as_dict values_at
as_dict-values_at acc labels [] ns vs = refl
as_dict-values_at acc labels (x ∷ ks) ns vs =
    as_dict-values_at (put acc x (get_or labels x "")) labels ks ns vs

get-as_dict :
    (acc labels : Dict String) (ks : List String) (k : String)
    → get (as_dict acc ks (values_at labels ks)) k
      ≡ (if contains ks k then some (get_or labels k "") else get acc k)
unfolding as_dict values_at
get-as_dict acc labels [] k = refl
get-as_dict acc labels (x ∷ ks) k =
    get-as_dict (put acc x (get_or labels x "")) labels ks k
    ∙ ground (arith, eq_iff x k, get-put acc x (get_or labels x "") k)

get-as_dict_snoc :
    (acc : Dict String) (n v k : String)
    → get (as_dict acc (n ∷ []) (v ∷ [])) k ≡ (if n == k then some v else get acc k)
unfolding as_dict
get-as_dict_snoc acc n v k = get-put acc n v k

get-as_dict_row :
    (statics dynamics : List String) (r : Read) (row : QueryResult) (k : String)
    → get
        (as_dict []
          (statics ++ (dynamics ++ "query_key" ∷ []))
          (row_sample statics dynamics r row).label_values)
        k
      ≡ (if "query_key" == k
          then some r.0
          else if contains dynamics k
          then some (get_or row.dynamic_labels k "")
          else if contains statics k
          then some (get_or r.1.labels k "")
          else none)
unfolding row_sample get
get-as_dict_row statics dynamics r row k =
    rw
      (as_dict-values_at [] r.1.labels statics (dynamics ++ "query_key" ∷ [])
        (values_at row.dynamic_labels dynamics ++ r.0 ∷ []))
      (rw
        (as_dict-values_at (as_dict [] statics (values_at r.1.labels statics)) row.dynamic_labels
          dynamics ("query_key" ∷ []) (r.0 ∷ []))
        (rw (get-as_dict_snoc _ "query_key" r.0 k) (
          ap (λ o. if "query_key" == k then some r.0 else o)
            (get-as_dict _ row.dynamic_labels dynamics k
              ∙ ap (λ o. if contains dynamics k then some (get_or row.dynamic_labels k "") else o)
                  (get-as_dict [] r.1.labels statics k)))))

row_sample-length :
    (statics dynamics : List String) (r : Read) (row : QueryResult)
    → length (row_sample statics dynamics r row).label_values
      ≡ length (statics ++ (dynamics ++ "query_key" ∷ []))
unfolding row_sample
row_sample-length statics dynamics r row = simp (length-append, length-values_at)

contains-append :
    (xs ys : List String) (k : String) → contains (xs ++ ys) k ≡ (contains xs k || contains ys k)
contains-append [] ys k = refl
contains-append (x ∷ xs) ys k = ground (arith, contains-append xs ys k)

contains-for_each {ℓ} :
    {A : Type ℓ} (f : A → List String) (xs : List A) (k : String)
    → contains (for_each f xs) k ≡ any_of (λ x. contains (f x) k) xs
contains-for_each f [] k = refl
contains-for_each f (x ∷ xs) k =
    contains-append (f x) (for_each f xs) k
    ∙ ap (◌||◌ (contains (f x) k)) (contains-for_each f xs k)

-- Some query of the group declares the static label.
abbrev pub declares : List Read → String → Bool
declares group k = any_of (λ r. has r.1.labels k) group

-- Some row of some query of the group has the column.
abbrev pub has_column : List Read → String → Bool
has_column group k =
    any_of (λ r. any_of (λ (row : QueryResult). has row.dynamic_labels k) (row_list r.1)) group

any_of-ext {ℓ} :
    {A : Type ℓ} (f g : A → Bool) (xs : List A) → ((x : A) → f x ≡ g x) → any_of f xs ≡ any_of g xs
any_of-ext f g xs h = rw (fun_ext h)

contains-static_keys :
    (group : List Read) (k : String) → contains (static_keys group) k ≡ declares group k
unfolding static_keys
contains-static_keys group k =
    contains-sorted_set _ k
    ∙ contains-for_each (λ r. keys r.1.labels) group k
    ∙ any_of-ext _ _ group (λ r. contains-keys-has r.1.labels k)

contains-dynamic_keys :
    (group : List Read) (k : String) → contains (dynamic_keys group) k ≡ has_column group k
unfolding dynamic_keys
contains-dynamic_keys group k =
    contains-sorted_set _ k
    ∙ contains-for_each
        (λ r. for_each (λ (row : QueryResult). keys row.dynamic_labels) (row_list r.1)) group k
    ∙ any_of-ext _ _ group (λ r.
      contains-for_each (λ (row : QueryResult). keys row.dynamic_labels) (row_list r.1) k
      ∙ any_of-ext _ _ (row_list r.1) (λ row. contains-keys-has row.dynamic_labels k))

-- What a series of a family shows under each label, whatever the group and the row: the query's key
-- under `query_key`; else the row's column, or the empty text, if any row of the group has that
-- column; else the query's own static label, or the empty text, if any query of the group has it.
pub series_label :
    (name : String) (group : List Read) (r : Read) (row : QueryResult) (k : String)
    → get
        (as_dict []
          (user_family (name, group)).label_names
          (row_sample (static_keys group) (dynamic_keys group) r row).label_values)
        k
      ≡ (if "query_key" == k
          then some r.0
          else if has_column group k
          then some (get_or row.dynamic_labels k "")
          else if declares group k
          then some (get_or r.1.labels k "")
          else none)
unfolding user_family
series_label name group r row k =
    rw (← contains-dynamic_keys group k, ← contains-static_keys group k)
      (get-as_dict_row (static_keys group) (dynamic_keys group) r row k)

rows-IsRectangular :
    (statics dynamics : List String) (r : Read) (rows : List QueryResult)
    → All
        (λ (s : Sample). length s.label_values ≡ length (statics ++ (dynamics ++ "query_key" ∷ [])))
        (map (λ row. row_sample statics dynamics r row) rows)
rows-IsRectangular statics dynamics r [] = tt
rows-IsRectangular statics dynamics r (row ∷ rows) =
    (row_sample-length statics dynamics r row, rows-IsRectangular statics dynamics r rows)

group-IsRectangular :
    (statics dynamics : List String) (group : List Read)
    → All
        (λ (s : Sample). length s.label_values ≡ length (statics ++ (dynamics ++ "query_key" ∷ [])))
        (for_each (λ r. map (λ row. row_sample statics dynamics r row) (row_list r.1)) group)
group-IsRectangular statics dynamics [] = tt
group-IsRectangular statics dynamics (r ∷ group) =
    All-append _ _ _ (rows-IsRectangular statics dynamics r (row_list r.1))
      (group-IsRectangular statics dynamics group)

families-IsRectangular : (groups : Dict (List Read)) → All IsRectangular (map user_family groups)
unfolding user_family
families-IsRectangular [] = tt
families-IsRectangular ((name, group) ∷ groups) = (
  group-IsRectangular (static_keys group) (dynamic_keys group) group,
  families-IsRectangular groups,
)

-- Every series of every user family has one value for each label name of its family.
pub user_families-IsRectangular : (active : List Read) → All IsRectangular (user_families active)
unfolding user_families
user_families-IsRectangular active = families-IsRectangular (group_reads [] active)
