-- ===== src/Config/LogLevel.antt =====
-- The log levels that src/promch/config.py accepts.
use prometheus_ch_exporter.Prelude.{
  ℕ, String, ◌≡◌, refl, sym, ◌∙◌, ap, ◌↔◌, true, Option, none, some, List, [], ◌∷◌, map, arith,
  ◌==◌, eq_iff, contains, Bool-cases, inl, inr,
}
use prometheus_ch_exporter.Prelude.Text.{codes, strip}
use prometheus_ch_exporter.Prelude.Result.{Result, ok, err, ok-injective}
use prometheus_ch_exporter.Config.{levels, level_of, same_codes, upper, validate_log_level}

same_codes-eq : (cs ds : List ℕ) → same_codes cs ds ≡ true → cs ≡ ds
same_codes-eq [] [] h = refl
same_codes-eq [] (d ∷ ds) h = cc
same_codes-eq (c ∷ cs) [] h = cc
same_codes-eq (c ∷ cs) (d ∷ ds) h = ground (arith, same_codes-eq cs ds)

level_of-found :
    (ls : List String) (cs : List ℕ) (level : String)
    → level_of ls cs ≡ some level
    → (contains ls level ≡ true) × (codes level ≡ cs)
unfolding level_of
level_of-found [] cs level h = cc
level_of-found (l ∷ ls) cs level h = elim (Bool-cases (same_codes (codes l) cs)) [
  | inl same ↦
      let here : l ≡ level = ground (arith, h, same) in
      (ground (arith, here, eq_iff l level), rw (← here) (same_codes-eq (codes l) cs same))
  | inr other ↦
      let rest = level_of-found ls cs level (ground (arith, h, other)) in
      (ground (arith, rest.0), rest.1)
]

known_level : (l level : String) → (l == level) ≡ true → l ≡ level
known_level l level h = (eq_iff l level).0 h

level_of-codes :
    (level : String) → contains levels level ≡ true → level_of levels (codes level) ≡ some level
unfolding level_of
level_of-codes level h = elim (Bool-cases ("CRITICAL" == level)) [
  | inl is ↦ rw (← known_level "CRITICAL" level is) refl
  | inr no1 ↦ elim (Bool-cases ("DEBUG" == level)) [
    | inl is ↦ rw (← known_level "DEBUG" level is) refl
    | inr no2 ↦ elim (Bool-cases ("ERROR" == level)) [
      | inl is ↦ rw (← known_level "ERROR" level is) refl
      | inr no3 ↦ elim (Bool-cases ("INFO" == level)) [
        | inl is ↦ rw (← known_level "INFO" level is) refl
        | inr no4 ↦ rw (← known_level "WARNING" level (ground (arith, h, no1, no2, no3, no4))) refl
      ]
    ]
  ]
]

accepted_level :
    (message level : String) (found : Option String)
    → ◌≡◌ {A = Result String String} (elim found [ none ↦ err message | some l ↦ ok l ]) (ok level)
    → found ≡ some level
accepted_level message level none h = cc
accepted_level message level (some l) h = ap some (ok-injective h)

log_level_found :
    (v level : String)
    → level_of levels (map upper (codes (strip v))) ≡ some level
    → validate_log_level v ≡ ok level
unfolding validate_log_level
log_level_found v level h = rw (validate_log_level, h) refl

-- A log level is accepted exactly if, without the whitespace around it and in upper case, it is one
-- of the allowed levels, and then it is that level.
pub validate_log_level_iff :
    (v level : String)
    → (validate_log_level v ≡ ok level)
      ↔ ((contains levels level ≡ true) × (codes level ≡ map upper (codes (strip v))))
unfolding validate_log_level
validate_log_level_iff v level = (
  λ accepted.
      level_of-found levels (map upper (codes (strip v))) level
        (accepted_level _ level (level_of levels (map upper (codes (strip v)))) accepted),
  λ h. log_level_found v level (ap (level_of levels) (sym h.1) ∙ level_of-codes level h.0),
)
