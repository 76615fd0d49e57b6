-- ===== src/Query/Status/Repeated.antt =====
-- The conditions of `derive_status` of src/promch/handlers/query_status.py, set again over the ones
-- that it has left.
use prometheus_ch_exporter.Prelude.{
  ℕ, String, ◌≡◌, refl, ◌∙◌, ap, Option, some, List, [], ◌==◌, if◌then◌else◌,
}
use prometheus_ch_exporter.Dict.{get}
use prometheus_ch_exporter.Dict.Laws.{get-put}
use prometheus_ch_exporter.Collector.{Snapshot}
use prometheus_ch_exporter.Query.Status.{
  running_conditions, query_succeeded, keeping_up, ready, all_nodes_responding, misconfiguration,
}
use prometheus_ch_exporter.Query.Condition.{
  Condition, Setting, condition, transition_time, by_type, set_condition, sort_conditions,
}
use prometheus_ch_exporter.Query.Status.Conditions.{
  typed, IsDistinct, by_type_distinct, typed-set_condition, set_condition-IsDistinct,
  set_condition_same,
}
use prometheus_ch_exporter.Query.Status.Ordering.{
  sort_conditions-IsNewestFirst, sort_conditions_sorted, get-typed_sort, sort_conditions-IsDistinct,
}

-- The condition that a call sets, where `before` is the one that it finds.
abbrev pub next_condition : Option Condition → (now : ℕ) (ctype : String) → Setting → Condition
next_condition before now ctype set = condition ctype set (transition_time before set.status now)

pub get-set_condition :
    (cs : List Condition) (now : ℕ) (ctype : String) (set : Setting) (k : String)
    → get (typed (set_condition cs now ctype set)) k ≡ (
        if ctype == k
        then some (next_condition (get (by_type [] cs) ctype) now ctype set)
        else get (by_type [] cs) k)
get-set_condition cs now ctype set k =
    rw (typed-set_condition cs now ctype set) (get-put _ ctype _ k)

get-by_type_set :
    (cs : List Condition) (now : ℕ) (ctype : String) (set : Setting) (k : String)
    → get (by_type [] (set_condition cs now ctype set)) k ≡ (
        if ctype == k
        then some (next_condition (get (by_type [] cs) ctype) now ctype set)
        else get (by_type [] cs) k)
get-by_type_set cs now ctype set k =
    rw (by_type_distinct _ (set_condition-IsDistinct cs now ctype set))
      (get-set_condition cs now ctype set k)

-- What the conditions of a running query say under each type: the four that `derive_status` sets
-- keep their transition time exactly while their status stays, and every other is as it was.
pub running_conditions_at :
    (snap : Snapshot) (cs : List Condition) (clock : ℕ → ℕ) (k : String)
    → let before = by_type [] cs in
      get (typed (running_conditions snap cs clock)) k ≡ (
        if "AllNodesResponding" == k
        then some (
            next_condition
              (get before "AllNodesResponding")
              (clock 4)
              "AllNodesResponding"
              (all_nodes_responding snap))
        else if "Ready" == k
        then some (next_condition (get before "Ready") (clock 3) "Ready" (ready snap))
        else if "KeepingUp" == k
        then some (next_condition (get before "KeepingUp") (clock 2) "KeepingUp" (keeping_up snap))
        else if "QuerySucceeded" == k
        then some (
            next_condition
              (get before "QuerySucceeded")
              (clock 1)
              "QuerySucceeded"
              (query_succeeded snap))
        else get before k)
unfolding running_conditions
running_conditions_at snap cs clock k =
    let cs₁ = set_condition cs (clock 1) "QuerySucceeded" (query_succeeded snap) in
    let cs₂ = set_condition cs₁ (clock 2) "KeepingUp" (keeping_up snap) in
    let cs₃ = set_condition cs₂ (clock 3) "Ready" (ready snap) in
    get-set_condition cs₃ (clock 4) "AllNodesResponding" (all_nodes_responding snap) k
    ∙ rw (
      get-by_type_set cs₂ (clock 3) "Ready" (ready snap) k,
      get-by_type_set cs₂ (clock 3) "Ready" (ready snap) "AllNodesResponding",
      get-by_type_set cs₁ (clock 2) "KeepingUp" (keeping_up snap) k,
      get-by_type_set cs₁ (clock 2) "KeepingUp" (keeping_up snap) "Ready",
      get-by_type_set cs₁ (clock 2) "KeepingUp" (keeping_up snap) "AllNodesResponding",
      get-by_type_set cs (clock 1) "QuerySucceeded" (query_succeeded snap) k,
      get-by_type_set cs (clock 1) "QuerySucceeded" (query_succeeded snap) "KeepingUp",
      get-by_type_set cs (clock 1) "QuerySucceeded" (query_succeeded snap) "Ready",
      get-by_type_set cs (clock 1) "QuerySucceeded" (query_succeeded snap) "AllNodesResponding",
    )

running_conditions_lem :
    (snap : Snapshot) (cs : List Condition) (clock : ℕ → ℕ)
    → running_conditions snap cs clock
      ≡ set_condition
          (set_condition
            (set_condition
              (set_condition cs (clock 1) "QuerySucceeded" (query_succeeded snap))
              (clock 2)
              "KeepingUp"
              (keeping_up snap))
            (clock 3)
            "Ready"
            (ready snap))
          (clock 4)
          "AllNodesResponding"
          (all_nodes_responding snap)
unfolding running_conditions
running_conditions_lem snap cs clock = refl

running_conditions_same :
    (snap : Snapshot) (cs : List Condition) (later : ℕ → ℕ) (t₁ t₂ t₃ t₄ : ℕ)
    → IsDistinct cs
    → get (typed cs) "QuerySucceeded" ≡ some (condition "QuerySucceeded" (query_succeeded snap) t₁)
    → get (typed cs) "KeepingUp" ≡ some (condition "KeepingUp" (keeping_up snap) t₂)
    → get (typed cs) "Ready" ≡ some (condition "Ready" (ready snap) t₃)
    → get (typed cs) "AllNodesResponding"
      ≡ some (condition "AllNodesResponding" (all_nodes_responding snap) t₄)
    → running_conditions snap cs later ≡ cs
running_conditions_same snap cs later t₁ t₂ t₃ t₄ u h₁ h₂ h₃ h₄ =
    running_conditions_lem snap cs later
    ∙ rw (
      set_condition_same cs (later 1) t₁ "QuerySucceeded" (query_succeeded snap) u h₁,
      set_condition_same cs (later 2) t₂ "KeepingUp" (keeping_up snap) u h₂,
      set_condition_same cs (later 3) t₃ "Ready" (ready snap) u h₃,
      set_condition_same cs (later 4) t₄ "AllNodesResponding" (all_nodes_responding snap) u h₄,
    )

module _ (snap : Snapshot) (cs : List Condition) (clock : ℕ → ℕ) where
  abbrev pub settled : List Condition
  settled = sort_conditions (running_conditions snap cs clock)

  running_conditions-IsDistinct : IsDistinct (running_conditions snap cs clock)
  unfolding running_conditions
  running_conditions-IsDistinct =
      let cs₁ = set_condition cs (clock 1) "QuerySucceeded" (query_succeeded snap) in
      let cs₂ = set_condition cs₁ (clock 2) "KeepingUp" (keeping_up snap) in
      let cs₃ = set_condition cs₂ (clock 3) "Ready" (ready snap) in
      set_condition-IsDistinct cs₃ (clock 4) "AllNodesResponding" (all_nodes_responding snap)

  settled-IsDistinct : IsDistinct settled
  settled-IsDistinct = sort_conditions-IsDistinct _ running_conditions-IsDistinct

  pub settled_at :
      (k : String) → get (typed settled) k ≡ get (typed (running_conditions snap cs clock)) k
  settled_at k = get-typed_sort _ k running_conditions-IsDistinct

  -- The four conditions are there already, whatever the time.
  running_conditions-settled : (later : ℕ → ℕ) → running_conditions snap settled later ≡ settled
  running_conditions-settled later =
      running_conditions_same snap settled later _ _ _ _ settled-IsDistinct
        (settled_at "QuerySucceeded" ∙ running_conditions_at snap cs clock "QuerySucceeded")
        (settled_at "KeepingUp" ∙ running_conditions_at snap cs clock "KeepingUp")
        (settled_at "Ready" ∙ running_conditions_at snap cs clock "Ready")
        (settled_at "AllNodesResponding" ∙ running_conditions_at snap cs clock "AllNodesResponding")

abbrev pub invalid_conditions : Snapshot → List Condition → ℕ → List Condition
invalid_conditions snap cs now =
    sort_conditions (set_condition cs now "Valid" (misconfiguration snap))

pub invalid_conditions_settled :
    (snap : Snapshot) (cs : List Condition) (now later : ℕ)
    → invalid_conditions snap (invalid_conditions snap cs now) later
      ≡ invalid_conditions snap cs now
invalid_conditions_settled snap cs now later =
    let set = misconfiguration snap in
    let once = set_condition cs now "Valid" set in
    let distinct = set_condition-IsDistinct cs now "Valid" set in
    ap sort_conditions (
      set_condition_same (sort_conditions once) later _ "Valid" set
        (sort_conditions-IsDistinct once distinct)
        (get-typed_sort once "Valid" distinct ∙ get-set_condition cs now "Valid" set "Valid"))
    ∙ sort_conditions_sorted (sort_conditions once) (sort_conditions-IsNewestFirst once)

pub running_settled :
    (snap : Snapshot) (cs : List Condition) (clock later : ℕ → ℕ)
    → sort_conditions (running_conditions snap (settled snap cs clock) later)
      ≡ settled snap cs clock
running_settled snap cs clock later =
    ap sort_conditions (running_conditions-settled snap cs clock later)
    ∙ sort_conditions_sorted (settled snap cs clock)
        (sort_conditions-IsNewestFirst (running_conditions snap cs clock))
