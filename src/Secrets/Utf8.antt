-- ===== src/Secrets/Utf8.antt =====
-- `bytes.decode("utf-8")`, as src/promch/k8s_secrets.py uses it: the strict decoder, with no overlong
-- form, no surrogate and nothing above U+10FFFF. The encoder is `str.encode("utf-8")`.
pub mod Coding
pub mod Bounds
use prometheus_ch_exporter.Prelude.{
  ℕ, ◌+◌, ◌-◌, ◌*◌, ◌/◌, ◌%◌, Bool, ◌&&◌, Option, none, some, List, [], ◌∷◌, ◌++◌, leb, ltb, nat_eq,
  if◌then◌else◌,
}

-- A started character: the bytes it still needs, its bits so far, and the range of its next byte.
pub record Partial : Type 0 where
  pub needed : ℕ
  pub bits : ℕ
  pub low : ℕ
  pub high : ℕ

abbrev pub no_partial : Partial
no_partial = record { needed = 0; bits = 0; low = 128; high = 191 }

-- What one byte does: an error, or a new state with the characters it ends.
pub data Taken : Type 0 where
  invalid : Taken
  taken : Partial → List ℕ → Taken

abbrev pub first_byte : ℕ → Taken
first_byte b =
    if ltb b 128
    then taken no_partial (b ∷ [])
    else if ltb b 194
    then invalid
    else if ltb b 224
    then taken (record { needed = 1; bits = b - 192; low = 128; high = 191 }) []
    else if nat_eq b 224
    then taken (record { needed = 2; bits = 0; low = 160; high = 191 }) []
    else if nat_eq b 237
    then taken (record { needed = 2; bits = 13; low = 128; high = 159 }) []
    else if ltb b 240
    then taken (record { needed = 2; bits = b - 224; low = 128; high = 191 }) []
    else if nat_eq b 240
    then taken (record { needed = 3; bits = 0; low = 144; high = 191 }) []
    else if ltb b 244
    then taken (record { needed = 3; bits = b - 240; low = 128; high = 191 }) []
    else if nat_eq b 244
    then taken (record { needed = 3; bits = 4; low = 128; high = 143 }) []
    else invalid

abbrev pub next_byte : Partial → ℕ → Taken
next_byte p b =
    if leb p.low b && leb b p.high
    then (if nat_eq p.needed 1
        then taken no_partial ((p.bits * 64 + (b - 128)) ∷ [])
        else taken
            (record {
              needed = p.needed - 1;
              bits = p.bits * 64 + (b - 128);
              low = 128;
              high = 191;
            })
            [])
    else invalid

unfoldable pub take_byte : Partial → ℕ → Taken
take_byte p b = if nat_eq p.needed 0 then first_byte b else next_byte p b

-- none is the UnicodeDecodeError.
unfoldable pub decode_utf8 : Partial → List ℕ → Option (List ℕ)
unfolding take_byte
decode_utf8 p [] = if nat_eq p.needed 0 then some [] else none
decode_utf8 p (b ∷ bytes) = elim (take_byte p b) [
  | invalid ↦ none
  | taken p' out ↦ elim (decode_utf8 p' bytes) [
    | none ↦ none
    | some characters ↦ some (out ++ characters)
  ]
]

unfoldable pub encode_character : ℕ → List ℕ
encode_character c =
    if ltb c 128
    then c ∷ []
    else if ltb c 2048
    then (192 + c / 64) ∷ (128 + c % 64) ∷ []
    else if ltb c 65536
    then (224 + c / 4096) ∷ (128 + c / 64 % 64) ∷ (128 + c % 64) ∷ []
    else (240 + c / 262144) ∷ (128 + c / 4096 % 64) ∷ (128 + c / 64 % 64) ∷ (128 + c % 64) ∷ []

unfoldable pub encode_utf8 : List ℕ → List ℕ
unfolding encode_character
encode_utf8 [] = []
encode_utf8 (c ∷ cs) = encode_character c ++ encode_utf8 cs
