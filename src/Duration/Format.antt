-- ===== src/Duration/Format.antt =====
-- Which texts `parse_duration_seconds` of src/promch/utils.py accepts, and what they mean.
use Prim.Native.Char.{Char, code}
use text.Mathlib.TextLemmas.{cons-append, nil-append}
use native.Mathlib.Nat.{pow-suc}
use prometheus_ch_exporter.Prelude.{
  ℕ, suc, ◌+◌, ◌-◌, ◌*◌, ◌^◌, String, ◌<>◌, ◌≡◌, refl, sym, ◌∙◌, ap, ◌≢◌, ◌⊎◌, ◌↔◌, inl, inr, Bool,
  true, false, some, arith, eq_iff, Bool-cases, Option-cases,
}
use prometheus_ch_exporter.Prelude.Result.{ok}
use prometheus_ch_exporter.Duration.{
  is_digit, multiplier, with_unit, match_duration, parse_duration_seconds,
}

abbrev size : String → ℕ
size String.[] = 0
size (String.◌∷◌ c s) = suc (size s)

abbrev pub IsDigits : String → Type 0
IsDigits String.[] = Unit
IsDigits (String.◌∷◌ c s) = (is_digit c ≡ true) × IsDigits s

-- The number that digits stand for, by the place of each.
abbrev pub number_of : String → ℕ
number_of String.[] = 0
number_of (String.◌∷◌ c s) = (code c - b'0') * 10 ^ size s + number_of s

-- `d` and then the one character `u`.
abbrev pub duration_text : String → Char → String
duration_text d u = d <> String.◌∷◌ u String.[]

shift : (amount c k v : ℕ) → (amount * 10 + c) * 10 ^ k + v ≡ amount * 10 ^ suc k + (c * 10 ^ k + v)
shift amount c k v = rw pow-suc (omega arith)

match_digits :
    (d : String) (seen : Bool) (amount : ℕ) (u : Char) (m : ℕ)
    → IsDigits d
    → multiplier u ≡ some m
    → (seen ≡ true) ⊎ (d ≢ "")
    → match_duration seen amount (duration_text d u)
      ≡ some ((amount * 10 ^ size d + number_of d) * m)
unfolding match_duration
match_digits String.[] true amount u m h e s =
    rw (nil-append (String.◌∷◌ u String.[])) (ground arith)
match_digits String.[] false amount u m h e s = ground arith
match_digits (String.◌∷◌ c d) seen amount u m h e s =
    rw (cons-append c d (String.◌∷◌ u String.[]), h.0)
      (match_digits d true (amount * 10 + (code c - b'0')) u m h.1 e (inl refl)
        ∙ ap (λ t. some (t * m)) (shift amount (code c - b'0') (size d) (number_of d)))

-- What an accepted text consists of.
pub record IsDigitsAndUnit (seen : Bool) (amount : ℕ) (v : String) (n : ℕ) : Type 0 where
  pub digits : String
  pub unit : Char
  pub factor : ℕ
  pub text : v ≡ duration_text digits unit
  pub all_digits : IsDigits digits
  pub known_unit : multiplier unit ≡ some factor
  pub some_digit : (seen ≡ true) ⊎ (digits ≢ "")
  pub seconds : n ≡ (amount * 10 ^ size digits + number_of digits) * factor

with_unit-IsDigitsAndUnit :
    (seen : Bool) (amount : ℕ) (c : Char) (rest : String) (n : ℕ)
    → with_unit seen amount c rest ≡ some n
    → IsDigitsAndUnit seen amount (String.◌∷◌ c rest) n
with_unit-IsDigitsAndUnit seen amount c rest n h = elim (Option-cases (multiplier c)) [
  | inl unknown ↦ ground arith
  | inr (m, known) ↦ record {
    digits = "";
    unit = c;
    factor = m;
    text =
        let empty : rest ≡ "" = ground (arith, eq_iff rest "") in
        rw (empty, nil-append (String.◌∷◌ c String.[]));
    all_digits = tt;
    known_unit = known;
    some_digit = inl (ground arith);
    seconds = ground arith;
  }
]

match-IsDigitsAndUnit :
    (v : String) (seen : Bool) (amount n : ℕ)
    → match_duration seen amount v ≡ some n
    → IsDigitsAndUnit seen amount v n
unfolding match_duration
match-IsDigitsAndUnit String.[] seen amount n h = cc
match-IsDigitsAndUnit (String.◌∷◌ c rest) seen amount n h = elim (Bool-cases (is_digit c)) [
  | inl digit ↦
      let ih = match-IsDigitsAndUnit rest true (amount * 10 + (code c - b'0')) n (ground arith) in
      record {
        digits = String.◌∷◌ c ih.digits;
        unit = ih.unit;
        factor = ih.factor;
        text = ap (String.◌∷◌ c) ih.text ∙ sym (cons-append c ih.digits _);
        all_digits = (digit, ih.all_digits);
        known_unit = ih.known_unit;
        some_digit = inr (λ e. cc);
        seconds =
            ih.seconds
            ∙ ap (λ t. t * ih.factor)
                (shift amount (code c - b'0') (size ih.digits) (number_of ih.digits));
      }
  | inr other ↦ with_unit-IsDigitsAndUnit seen amount c rest n (ground arith)
]

-- `parse_duration_seconds` reads one digit or more and then `s`, `m` or `h`, as that many seconds,
-- minutes or hours, whatever the number of digits and with or without leading zeros.
pub parse_duration-format :
    (digits : String) (unit : Char) (factor : ℕ)
    → IsDigits digits
    → digits ≢ ""
    → multiplier unit ≡ some factor
    → parse_duration_seconds (duration_text digits unit) ≡ ok (number_of digits * factor)
unfolding parse_duration_seconds
parse_duration-format digits unit factor h some_digit known =
    ground (arith, match_digits digits false 0 unit factor h known (inr some_digit))

-- It accepts nothing else: an accepted text is of that form, and its result is the number of its
-- digits times the seconds of its unit.
pub parse_duration-IsDigitsAndUnit :
    (value : String) (n : ℕ) → parse_duration_seconds value ≡ ok n → IsDigitsAndUnit false 0 value n
unfolding parse_duration_seconds
parse_duration-IsDigitsAndUnit value n h = match-IsDigitsAndUnit value false 0 n (ground arith)

from_zero : (k n factor : ℕ) → (0 * k + n) * factor ≡ n * factor
from_zero k n factor = ap (λ m. m * factor) (omega arith)

some_digits : (digits : String) → (◌≡◌ {A = Bool} false true) ⊎ (digits ≢ "") → digits ≢ ""
some_digits digits (inl never) = cc
some_digits digits (inr some_digit) = some_digit

-- The durations that are accepted, and what they mean: a text parses as a number of seconds exactly
-- if it is one digit or more and a unit, and the number is theirs times the seconds of the unit.
pub parse_duration_iff :
    (value : String) (n : ℕ)
    → (parse_duration_seconds value ≡ ok n) ↔ IsDigitsAndUnit false 0 value n
parse_duration_iff value n = (
  parse_duration-IsDigitsAndUnit value n,
  λ form.
      rw
        (
          form.text,
          form.seconds ∙ from_zero (10 ^ size form.digits) (number_of form.digits) form.factor,
        )
        (parse_duration-format form.digits form.unit form.factor form.all_digits
          (some_digits form.digits form.some_digit) form.known_unit),
)
