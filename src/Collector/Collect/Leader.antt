-- ===== src/Collector/Collect/Leader.antt =====
-- The leader metric of a scrape: whether another family takes its name.
use text.Mathlib.TextLemmas.{append_cancel_left}
use prometheus_ch_exporter.Prelude.{
  String, ◌<>◌, ◌≡◌, refl, ◌∙◌, Bool, true, false, List, [], ◌∷◌, ◌++◌, map, arith, ◌==◌, eq_iff,
  ◌&&◌, ◌||◌, nonempty, if◌then◌else◌, any_of, keep_if, contains, Bool-cases, inl, inr,
}
use prometheus_ch_exporter.Dict.{Dict, has, get, get_or}
use prometheus_ch_exporter.Dict.Laws.{get-put}
use prometheus_ch_exporter.Collector.{Entries}
use prometheus_ch_exporter.Collector.Collect.{
  number, Family, Read, is_valid, is_served, sys_name, if_any, system_families, append_to,
  group_reads, user_family, user_families, collect,
}
use prometheus_ch_exporter.Collector.Collect.System.{rest_of, sample_values, collect_gate}

abbrev pub names : List Family → List String
names = map λ fam. fam.name

sys_texts : (prefix a b : String) → prefix <> ("_" <> a) ≡ prefix <> ("_" <> b) → a ≡ b
sys_texts prefix a b e =
    append_cancel_left "_" a b (append_cancel_left prefix ("_" <> a) ("_" <> b) e)

sys_name_other :
    (prefix a b : String) → a == b ≡ false → sys_name prefix a == sys_name prefix b ≡ false
unfolding sys_name
sys_name_other prefix a b apart =
    ground (
      arith,
      eq_iff a b,
      sys_texts prefix a b,
      eq_iff (prefix <> ("_" <> a)) (prefix <> ("_" <> b)),
    )

names-if_any :
    (fam : Family) (rest : List Family) (k : String)
    → fam.name == k ≡ false
    → contains (names (if_any fam ++ rest)) k ≡ contains (names rest) k
names-if_any fam rest k other = ground (arith, other)

names-if_any_last :
    (fam : Family) (k : String) → fam.name == k ≡ false → contains (names (if_any fam)) k ≡ false
names-if_any_last fam k other = ground (arith, other)

has-append_to :
    (groups : Dict (List Read)) (name : String) (r : Read) (k : String)
    → has (append_to groups name r) k ≡ (has groups k || name == k)
unfolding append_to
has-append_to groups name r k =
    ground (arith, get-put groups name (get_or groups name [] ++ r ∷ []) k, eq_iff name k)

has-group_reads :
    (groups : Dict (List Read)) (rs : List Read) (k : String)
    → has (group_reads groups rs) k
      ≡ (has groups k || any_of (λ r. is_served r && r.1.name == k) rs)
unfolding group_reads
has-group_reads groups [] k = ground arith
has-group_reads groups (r ∷ rs) k = elim (Bool-cases (is_served r)) [
  | inr hidden ↦ rw hidden (has-group_reads groups rs k)
  | inl served ↦
      rw
        (
          served,
          has-group_reads (append_to groups r.1.name r) rs k,
          has-append_to groups r.1.name r k,
        )
        (ground arith)
]

names-user_families :
    (groups : Dict (List Read)) (k : String)
    → contains (names (map user_family groups)) k ≡ has groups k
unfolding user_family get
names-user_families [] k = refl
names-user_families ((name, group) ∷ groups) k = ground (arith, names-user_families groups k)

any_of-keep_if :
    (p q : Read → Bool) (rs : List Read) → any_of q (keep_if p rs) ≡ any_of (λ r. p r && q r) rs
any_of-keep_if p q [] = refl
any_of-keep_if p q (r ∷ rs) = ground (arith, any_of-keep_if p q rs)

-- None of the families about the queries has the name of the leader metric.
names-system_families :
    (prefix : String) (reads active : List Read) (rest : List Family)
    → contains (names (system_families prefix reads active ++ rest)) (sys_name prefix "leader")
      ≡ contains (names rest) (sys_name prefix "leader")
unfolding system_families
names-system_families prefix reads active rest = ground (
  arith,
  sys_name_other prefix "query_up" "leader" refl,
  sys_name_other prefix "query_last_success_timestamp_seconds" "leader" refl,
  sys_name_other prefix "query_duration_seconds" "leader" refl,
  sys_name_other prefix "query_inflight" "leader" refl,
  sys_name_other prefix "query_skipped_total" "leader" refl,
)

-- The query is shown, under the name of the leader metric.
abbrev pub takes_leader : (prefix : String) → Read → Bool
takes_leader prefix r = is_valid r && (is_served r && r.1.name == sys_name prefix "leader")

names-collect :
    (prefix : String) (is_leader : Bool) (es : Entries)
    → contains (names (rest_of (collect prefix is_leader es))) (sys_name prefix "leader")
      ≡ (is_leader && any_of (takes_leader prefix) es)
unfolding collect user_families get
names-collect prefix false es = refl
names-collect prefix true es =
    let active = keep_if is_valid es in
    names-system_families prefix es active (user_families active)
    ∙ names-user_families (group_reads [] active) (sys_name prefix "leader")
    ∙ has-group_reads [] active (sys_name prefix "leader")
    ∙ any_of-keep_if is_valid (λ r. is_served r && r.1.name == sys_name prefix "leader") es

-- A scrape of any replica begins with the leader metric, with 1 exactly on the active replica. It
-- shows anything else exactly when the replica is active and some query is registered. The leader
-- metric stands there again exactly if the replica is active and some valid query that is shown has
-- its name.
pub collect-leader :
    (prefix : String) (is_leader : Bool) (es : Entries)
    → let rest = rest_of (collect prefix is_leader es) in
      (sample_values (collect prefix is_leader es)
        ≡ (sys_name prefix "leader", number (if is_leader then 1 else 0) ∷ []) ∷ sample_values rest)
      × (nonempty rest ≡ (is_leader && nonempty es))
      × (contains (names rest) (sys_name prefix "leader")
          ≡ (is_leader && any_of (takes_leader prefix) es))
collect-leader prefix is_leader es = (
  (collect_gate prefix is_leader es).1,
  (collect_gate prefix is_leader es).0,
  names-collect prefix is_leader es,
)
