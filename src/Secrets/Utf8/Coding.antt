-- ===== src/Secrets/Utf8/Coding.antt =====
-- The UTF-8 decoder on what the encoder writes (src/promch/k8s_secrets.py).
use prometheus_ch_exporter.Prelude.{
  ℕ, ◌+◌, ◌-◌, ◌*◌, ◌/◌, ◌%◌, ◌<◌, ◌≤◌, ◌≡◌, refl, ◌∙◌, sym, Option, none, some, List, [], ◌∷◌,
  ◌++◌, arith, All, nat_eq, ltb, if◌then◌else◌, All-append, Option-cases, ◌⊎◌, inl, inr, Bool-cases,
}
use prometheus_ch_exporter.Secrets.Base64.Coding.{IsByte}
use prometheus_ch_exporter.Secrets.Utf8.{
  Partial, no_partial, taken, take_byte, decode_utf8, encode_character, encode_utf8,
}

-- A Unicode scalar value.
abbrev pub IsScalar : ℕ → Type 0
IsScalar c = (c < 55296) ⊎ ((57344 ≤ c) × (c < 1114112))

encode_character-All_bytes : (c : ℕ) → IsScalar c → All IsByte (encode_character c)
unfolding encode_character
encode_character-All_bytes c h = ground arith

pub encode_utf8-All_bytes : (cs : List ℕ) → All IsScalar cs → All IsByte (encode_utf8 cs)
unfolding encode_utf8
encode_utf8-All_bytes [] h = tt
encode_utf8-All_bytes (c ∷ cs) h =
    All-append IsByte (encode_character c) (encode_utf8 cs) (encode_character-All_bytes c h.0)
      (encode_utf8-All_bytes cs h.1)

-- Adds the characters of one byte in front.
abbrev pub with_characters : List ℕ → Option (List ℕ) → Option (List ℕ)
with_characters out none = none
with_characters out (some cs) = some (out ++ cs)

pub decode-taken :
    (p p' : Partial) (b : ℕ) (out bytes : List ℕ)
    → take_byte p b ≡ taken p' out
    → decode_utf8 p (b ∷ bytes) ≡ with_characters out (decode_utf8 p' bytes)
unfolding decode_utf8
decode-taken p p' b out bytes h =
    rw (h, decode_utf8)
      (elim (Option-cases (decode_utf8 p' bytes)) [ inl n ↦ rw n refl | inr s ↦ rw s.1 refl ])

decode-needs :
    (p p' : Partial) (b : ℕ) (bytes : List ℕ)
    → take_byte p b ≡ taken p' []
    → decode_utf8 p (b ∷ bytes) ≡ decode_utf8 p' bytes
decode-needs p p' b bytes h =
    decode-taken p p' b [] bytes h
    ∙ elim (Option-cases (decode_utf8 p' bytes)) [ inl n ↦ rw n refl | inr s ↦ rw s.1 refl ]

-- In a character, with so many bytes to come.
abbrev after : ℕ → ℕ → Partial
after needed bits = record { needed = needed; bits = bits; low = 128; high = 191 }

take-next :
    (p : Partial) (b : ℕ)
    → 1 < p.needed
    → p.low ≤ b
    → b ≤ p.high
    → take_byte p b ≡ taken (after (p.needed - 1) (p.bits * 64 + (b - 128))) []
unfolding take_byte
take-next p b n l h = ground arith

take-last :
    (p : Partial) (b c : ℕ)
    → p.needed ≡ 1
    → p.low ≤ b
    → b ≤ p.high
    → p.bits * 64 + (b - 128) ≡ c
    → take_byte p b ≡ taken no_partial (c ∷ [])
unfolding take_byte
take-last p b c n l h same = rw (sym same) (ground (arith, n, l, h))

decode-last :
    (p : Partial) (b c : ℕ) (bytes : List ℕ)
    → p.needed ≡ 1
    → p.low ≤ b
    → b ≤ p.high
    → p.bits * 64 + (b - 128) ≡ c
    → decode_utf8 p (b ∷ bytes) ≡ with_characters (c ∷ []) (decode_utf8 no_partial bytes)
decode-last p b c bytes n l h same =
    decode-taken p no_partial b (c ∷ []) bytes (take-last p b c n l h same)

decode-one :
    (c : ℕ) (bytes : List ℕ)
    → c < 128
    → decode_utf8 no_partial (c ∷ bytes) ≡ with_characters (c ∷ []) (decode_utf8 no_partial bytes)
unfolding take_byte
decode-one c bytes h = decode-taken no_partial no_partial c (c ∷ []) bytes (ground arith)

decode-two :
    (c : ℕ) (bytes : List ℕ)
    → 128 ≤ c
    → c < 2048
    → decode_utf8 no_partial ((192 + c / 64) ∷ (128 + c % 64) ∷ bytes)
      ≡ with_characters (c ∷ []) (decode_utf8 no_partial bytes)
unfolding take_byte
decode-two c bytes hl hh =
    decode-needs no_partial (after 1 (c / 64)) (192 + c / 64) ((128 + c % 64) ∷ bytes)
      (ground arith)
    ∙ decode-last (after 1 (c / 64)) (128 + c % 64) c bytes refl (omega arith) (omega arith)
        (omega arith)

-- The state after the first byte of three or four.
first_of_three : ℕ → Partial
first_of_three v = record {
  needed = 2;
  bits = v;
  low = if nat_eq v 0 then 160 else 128;
  high = if nat_eq v 13 then 159 else 191;
}

decode-three :
    (c : ℕ) (bytes : List ℕ)
    → 2048 ≤ c
    → c < 65536
    → IsScalar c
    → decode_utf8 no_partial ((224 + c / 4096) ∷ (128 + c / 64 % 64) ∷ (128 + c % 64) ∷ bytes)
      ≡ with_characters (c ∷ []) (decode_utf8 no_partial bytes)
unfolding first_of_three take_byte
decode-three c bytes hl hh scalar =
    decode-needs no_partial (first_of_three (c / 4096)) (224 + c / 4096)
      ((128 + c / 64 % 64) ∷ (128 + c % 64) ∷ bytes) (ground arith)
    ∙ decode-needs (first_of_three (c / 4096)) (after 1 (c / 4096 * 64 + c / 64 % 64))
        (128 + c / 64 % 64) ((128 + c % 64) ∷ bytes) (ground arith)
    ∙ decode-last (after 1 (c / 4096 * 64 + c / 64 % 64)) (128 + c % 64) c bytes refl (omega arith)
        (omega arith) (omega arith)

-- The state after the first byte of four.
first_of_four : ℕ → Partial
first_of_four v = record {
  needed = 3;
  bits = v;
  low = if nat_eq v 0 then 144 else 128;
  high = if nat_eq v 4 then 143 else 191;
}

decode-four :
    (c : ℕ) (bytes : List ℕ)
    → 65536 ≤ c
    → c < 1114112
    → decode_utf8 no_partial
        ((240 + c / 262144) ∷ (128 + c / 4096 % 64) ∷ (128 + c / 64 % 64) ∷ (128 + c % 64) ∷ bytes)
      ≡ with_characters (c ∷ []) (decode_utf8 no_partial bytes)
unfolding first_of_four take_byte
decode-four c bytes hl hh =
    let v = c / 262144 in
    let w = v * 64 + c / 4096 % 64 in
    let x = w * 64 + c / 64 % 64 in
    decode-needs no_partial (first_of_four v) (240 + v)
      ((128 + c / 4096 % 64) ∷ (128 + c / 64 % 64) ∷ (128 + c % 64) ∷ bytes) (ground arith)
    ∙ decode-needs (first_of_four v) (after 2 w) (128 + c / 4096 % 64)
        ((128 + c / 64 % 64) ∷ (128 + c % 64) ∷ bytes) (ground arith)
    ∙ decode-needs (after 2 w) (after 1 x) (128 + c / 64 % 64) ((128 + c % 64) ∷ bytes)
        (ground arith)
    ∙ decode-last (after 1 x) (128 + c % 64) c bytes refl (omega arith) (omega arith) (omega arith)

decode-character :
    (c : ℕ) (bytes : List ℕ)
    → IsScalar c
    → decode_utf8 no_partial (encode_character c ++ bytes)
      ≡ with_characters (c ∷ []) (decode_utf8 no_partial bytes)
unfolding encode_character
decode-character c bytes scalar = elim (Bool-cases (ltb c 128)) [
  | inl one ↦ rw one (decode-one c bytes (ground arith))
  | inr more ↦ rw more (elim (Bool-cases (ltb c 2048)) [
    | inl two ↦ rw two (decode-two c bytes (ground arith) (ground arith))
    | inr more2 ↦ rw more2 (elim (Bool-cases (ltb c 65536)) [
      | inl three ↦ rw three (decode-three c bytes (ground arith) (ground arith) scalar)
      | inr four ↦ rw four (decode-four c bytes (ground arith) (ground arith))
    ])
  ])
]

pub decode_utf8-encode_utf8 :
    (cs : List ℕ) → All IsScalar cs → decode_utf8 no_partial (encode_utf8 cs) ≡ some cs
unfolding encode_utf8 decode_utf8
decode_utf8-encode_utf8 [] h = refl
decode_utf8-encode_utf8 (c ∷ cs) h =
    rw (decode-character c (encode_utf8 cs) h.0, decode_utf8-encode_utf8 cs h.1) refl
