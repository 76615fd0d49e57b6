-- ===== src/Collector/Collect/System.antt =====
-- The operator's own metrics of a scrape: the leader gate, and `query_up` for every query.
use prometheus_ch_exporter.Prelude.{
  String, ◌≡◌, refl, Bool, true, false, none, some, List, [], ◌∷◌, map, arith, not, ◌&&◌, nonempty,
  if◌then◌else◌, truthy,
}
use prometheus_ch_exporter.Dict.{Dict, get}
use prometheus_ch_exporter.Collector.{Entries}
use prometheus_ch_exporter.Collector.Collect.{
  SampleValue, number, Sample, Family, sys_name, leader_family, up_samples, system_families,
  user_families, collect,
}

abbrev pub rest_of {ℓ} : {A : Type ℓ} → List A → List A
rest_of [] = []
rest_of (x ∷ xs) = xs

abbrev pub sample_values : List Family → List (String × List SampleValue)
sample_values = map λ fam. (fam.name, map (λ (s : Sample). s.value) fam.samples)

-- A scrape of any replica begins with the leader metric, with 1 exactly on the active replica. It
-- shows anything else exactly when the replica is active and some query is registered.
pub collect_gate :
    (prefix : String) (is_leader : Bool) (es : Entries)
    → (nonempty (rest_of (collect prefix is_leader es)) ≡ (is_leader && nonempty es))
      × (sample_values (collect prefix is_leader es)
          ≡ (sys_name prefix "leader", number (if is_leader then 1 else 0) ∷ [])
            ∷ sample_values (rest_of (collect prefix is_leader es)))
unfolding collect leader_family system_families up_samples user_families
collect_gate prefix false es = (refl, refl)
collect_gate prefix true [] = (refl, refl)
collect_gate prefix true (r ∷ es) = (refl, refl)

abbrev pub by_key : List Sample → Dict SampleValue
by_key [] = []
by_key (record_sample ∷ samples) = elim record_sample.label_values [
  | [] ↦ by_key samples
  | key ∷ _ ↦ (key, record_sample.value) ∷ by_key samples
]

-- Under every key, `query_up` has a sample exactly if the query is registered, and the sample is 1
-- exactly if the last run succeeded and the query has no reason to be invalid.
pub get-up_samples :
    (es : Entries) (key : String)
    → get (by_key (up_samples es)) key ≡ elim (get es key) [
      | none ↦ none
      | some entry ↦ some (number (if entry.up && not (truthy entry.invalid_reason) then 1 else 0))
    ]
unfolding get up_samples
get-up_samples [] key = refl
get-up_samples ((j, entry) ∷ es) key = ground (arith, get-up_samples es key)
