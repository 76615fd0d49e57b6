-- ===== src/Secrets/Utf8/Bounds.antt =====
-- What the UTF-8 decoder gives is Unicode scalar values, on any bytes (src/promch/k8s_secrets.py).
use prometheus_ch_exporter.Prelude.{
  ℕ, ◌<◌, ◌≤◌, ◌≡◌, refl, subst, Option, none, some, List, [], ◌∷◌, arith, All, nat_eq, All-append,
  Option-cases, ◌⊎◌, inl, inr, Bool-cases, ◌≢◌,
}
use prometheus_ch_exporter.Secrets.Utf8.{
  Partial, no_partial, Taken, invalid, taken, first_byte, next_byte, take_byte, decode_utf8,
}
use prometheus_ch_exporter.Secrets.Utf8.Coding.{IsScalar, decode-taken}

-- The next byte leads to no overlong form, no surrogate and nothing above U+10FFFF.
abbrev IsRange : Partial → Type 0
IsRange p =
    ((p.needed ≡ 1) × ((p.bits < 864) ⊎ ((896 ≤ p.bits) × (p.bits < 17408))))
    ⊎ (((p.needed ≡ 2)
          × ((p.bits < 13) ⊎ (((p.bits ≡ 13) × (p.high ≤ 159)) ⊎ ((14 ≤ p.bits) × (p.bits < 272)))))
        ⊎ ((p.needed ≡ 3)
            × (((p.bits ≡ 0) × (144 ≤ p.low))
                ⊎ (((1 ≤ p.bits) × (p.bits < 4)) ⊎ ((p.bits ≡ 4) × (p.high ≤ 143))))))

abbrev IsPartial : Partial → Type 0
IsPartial p = (p.needed ≡ 0) ⊎ ((128 ≤ p.low) × ((p.high ≤ 191) × IsRange p))

-- A byte gives scalar values, and leaves a state with such a range.
abbrev IsTaken : Taken → Type 0
IsTaken invalid = Unit
IsTaken (taken p out) = IsPartial p × All IsScalar out

first_byte-IsTaken : (b : ℕ) → IsTaken (first_byte b)
first_byte-IsTaken b = ground arith

next_byte-IsTaken : (p : Partial) (b : ℕ) → p.needed ≢ 0 → IsPartial p → IsTaken (next_byte p b)
next_byte-IsTaken p b some_needed fits = ground arith

take_byte-IsTaken : (p : Partial) (b : ℕ) → IsPartial p → IsTaken (take_byte p b)
unfolding take_byte
take_byte-IsTaken p b fits = elim (Bool-cases (nat_eq p.needed 0)) [
  | inl first ↦ rw first (first_byte-IsTaken b)
  | inr next ↦ rw next (next_byte-IsTaken p b (ground arith) fits)
]

Taken-cases : (t : Taken) → (t ≡ invalid) ⊎ ((p : Partial) × (out : List ℕ) × (t ≡ taken p out))
Taken-cases invalid = inl refl
Taken-cases (taken p out) = inr (p, out, refl)

-- The characters of a decoded text, if there are any.
abbrev pub AllScalars : Option (List ℕ) → Type 0
AllScalars none = Unit
AllScalars (some cs) = All IsScalar cs

decode-AllScalars : (p : Partial) (bytes : List ℕ) → IsPartial p → AllScalars (decode_utf8 p bytes)
unfolding decode_utf8
decode-AllScalars p [] fits = elim (Bool-cases (nat_eq p.needed 0)) [
  | inl t ↦ rw t tt
  | inr f ↦ rw f tt
]
decode-AllScalars p (b ∷ bytes) fits = elim (Taken-cases (take_byte p b)) [
  | inl e ↦ rw (decode_utf8, e) tt
  | inr m ↦
      let fed = subst IsTaken m.2 (take_byte-IsTaken p b fits) in
      let rest = decode-AllScalars m.0 bytes fed.0 in
      elim (Option-cases (decode_utf8 m.0 bytes)) [
        | inl n ↦ rw (decode-taken p m.0 b m.1 bytes m.2, n) tt
        | inr s ↦
            rw (decode-taken p m.0 b m.1 bytes m.2, s.1)
              (All-append IsScalar m.1 s.0 fed.1 (subst AllScalars s.1 rest))
      ]
]

pub decode_utf8-AllScalars : (bytes : List ℕ) → AllScalars (decode_utf8 no_partial bytes)
decode_utf8-AllScalars bytes = decode-AllScalars no_partial bytes (inl refl)
