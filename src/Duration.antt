-- ===== src/Duration.antt =====
-- src/promch/utils.py: `parse_duration_seconds`, on texts of ASCII characters.
pub mod Format
use Prim.Native.Char.{Char, code}
use prometheus_ch_exporter.Prelude.{
  ℕ, ◌+◌, ◌-◌, ◌*◌, String, ◌<>◌, ◌≡◌, refl, Bool, true, false, ◌&&◌, Option, none, some, ◌==◌, leb,
  nat_eq, if◌then◌else◌,
}
use prometheus_ch_exporter.Prelude.Result.{Result, ok, err}
use prometheus_ch_exporter.Prelude.Text.{repr}

abbrev pub is_digit : Char → Bool
is_digit c = leb b'0' (code c) && leb (code c) b'9'

-- `multipliers`
abbrev pub multiplier : Char → Option ℕ
multiplier c =
    if nat_eq (code c) b's'
    then some 1
    else if nat_eq (code c) b'm'
    then some 60
    else if nat_eq (code c) b'h'
    then some 3600
    else none

-- The last character, once a digit has been seen.
abbrev pub with_unit : (seen : Bool) (amount : ℕ) (c : Char) (rest : String) → Option ℕ
with_unit seen amount c rest =
    if seen && (rest == "")
    then elim (multiplier c) [ none ↦ none | some m ↦ some (amount * m) ]
    else none

-- `re.fullmatch(r"(\d+)(s|m|h)", value)`, with the number read as it goes.
unfoldable pub match_duration : (seen : Bool) (amount : ℕ) → String → Option ℕ
match_duration seen amount String.[] = none
match_duration seen amount (String.◌∷◌ c rest) =
    let more = match_duration true (amount * 10 + (code c - b'0')) rest in
    if is_digit c then more else with_unit seen amount c rest

-- The error is the message of the ValueError.
unfoldable pub parse_duration_seconds : String → Result String ℕ
unfolding match_duration repr
parse_duration_seconds value = elim (match_duration false 0 value) [
  | none ↦ err ("Invalid duration: " <> (repr value <> ". Expected e.g. 30s, 5m, 1h."))
  | some seconds ↦ ok seconds
]

parse_minutes : parse_duration_seconds "15m" ≡ ok 900
unfolding parse_duration_seconds
parse_minutes = refl
