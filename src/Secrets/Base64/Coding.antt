-- ===== src/Secrets/Base64/Coding.antt =====
-- The base64 decoder on what the encoder writes, and on any text (src/promch/k8s_secrets.py).
use prometheus_ch_exporter.Prelude.{
  ℕ, ◌+◌, ◌*◌, ◌/◌, ◌%◌, ◌<◌, ◌≡◌, refl, ◌∙◌, false, Option, none, some, List, [], ◌∷◌, ◌++◌, arith,
  All, nat_eq, Option-cases, inl, inr,
}
use prometheus_ch_exporter.Secrets.Base64.{
  sextet, Quad, at_start, more, take_sextet, feed, decode_base64, letter, encode_base64,
}

abbrev pub IsByte : ℕ → Type 0
IsByte b = b < 256

sextet-letter : (v : ℕ) → v < 64 → sextet (letter v) ≡ some v
unfolding sextet letter
sextet-letter v h = ground arith

letter-no_pad : (v : ℕ) → v < 64 → nat_eq (letter v) b'=' ≡ false
unfolding letter
letter-no_pad v h = ground arith

feed-letter : (q : Quad) (v : ℕ) → v < 64 → feed q (letter v) ≡ take_sextet q v
unfolding feed
feed-letter q v h = rw (letter-no_pad v h, sextet-letter v h) refl

-- Adds the bytes of one character in front.
abbrev pub with_bytes : List ℕ → Option (List ℕ) → Option (List ℕ)
with_bytes out none = none
with_bytes out (some bytes) = some (out ++ bytes)

pub decode-more :
    (q q' : Quad) (c : ℕ) (out cs : List ℕ)
    → feed q c ≡ more q' out
    → decode_base64 q (c ∷ cs) ≡ with_bytes out (decode_base64 q' cs)
unfolding decode_base64
decode-more q q' c out cs h =
    rw (h, decode_base64)
      (elim (Option-cases (decode_base64 q' cs)) [ inl n ↦ rw n refl | inr s ↦ rw s.1 refl ])

-- A place in a group, with the bits left over there.
abbrev at : ℕ → ℕ → Quad
at place left = record { place = place; left = left; pads = 0 }

decode-letter :
    (place left v : ℕ) (q : Quad) (out cs : List ℕ)
    → v < 64
    → take_sextet (at place left) v ≡ more q out
    → decode_base64 (at place left) (letter v ∷ cs) ≡ with_bytes out (decode_base64 q cs)
decode-letter place left v q out cs h takes =
    decode-more (at place left) q (letter v) out cs (feed-letter (at place left) v h ∙ takes)

decode-two :
    (v w : ℕ) (cs : List ℕ)
    → v < 64
    → w < 64
    → decode_base64 at_start (letter v ∷ letter w ∷ cs)
      ≡ with_bytes ((v * 4 + w / 16) ∷ []) (decode_base64 (at 2 (w % 16)) cs)
decode-two v w cs hv hw =
    rw (decode-letter 0 0 v _ _ (letter w ∷ cs) hv refl, decode-letter 1 v w _ _ cs hw refl)
      (elim (Option-cases (decode_base64 (at 2 (w % 16)) cs)) [
        | inl n ↦ rw n refl
        | inr s ↦ rw s.1 refl
      ])

decode-three :
    (v w x : ℕ) (cs : List ℕ)
    → v < 64
    → w < 64
    → x < 64
    → decode_base64 at_start (letter v ∷ letter w ∷ letter x ∷ cs)
      ≡ with_bytes ((v * 4 + w / 16) ∷ (w % 16 * 16 + x / 4) ∷ []) (decode_base64 (at 3 (x % 4)) cs)
decode-three v w x cs hv hw hx =
    rw (decode-two v w (letter x ∷ cs) hv hw, decode-letter 2 (w % 16) x _ _ cs hx refl)
      (elim (Option-cases (decode_base64 (at 3 (x % 4)) cs)) [
        | inl n ↦ rw n refl
        | inr s ↦ rw s.1 refl
      ])

first_byte : (a b : ℕ) → b < 256 → a / 4 * 4 + (a % 4 * 16 + b / 16) / 16 ≡ a
first_byte a b h = omega arith

second_byte :
    (a b c : ℕ)
    → b < 256
    → c < 256
    → (a % 4 * 16 + b / 16) % 16 * 16 + (b % 16 * 4 + c / 64) / 4 ≡ b
second_byte a b c hb hc = omega arith

lone_byte : (a : ℕ) → a / 4 * 4 + a % 4 * 16 / 16 ≡ a
lone_byte a = omega arith

last_byte : (a b : ℕ) → b < 256 → (a % 4 * 16 + b / 16) % 16 * 16 + b % 16 * 4 / 4 ≡ b
last_byte a b h = omega arith

third_byte : (b c : ℕ) → c < 256 → (b % 16 * 4 + c / 64) % 4 * 64 + c % 64 ≡ c
third_byte b c h = omega arith

pub decode-encode :
    (bytes : List ℕ) → All IsByte bytes → decode_base64 at_start (encode_base64 bytes) ≡ some bytes
unfolding encode_base64 decode_base64 feed
decode-encode [] h = refl
decode-encode (a ∷ []) h =
    rw (decode-two (a / 4) (a % 4 * 16) (b'=' ∷ b'=' ∷ []) (omega (arith, h.0)) (omega arith))
      (rw (lone_byte a) refl)
decode-encode (a ∷ b ∷ []) h =
    rw
      (decode-three (a / 4) (a % 4 * 16 + b / 16) (b % 16 * 4) (b'=' ∷ []) (omega (arith, h.0))
        (omega (arith, h.1.0)) (omega arith))
      (rw (first_byte a b h.1.0, last_byte a b h.1.0) refl)
decode-encode (a ∷ b ∷ c ∷ bytes) h =
    rw
      (
        decode-three (a / 4) (a % 4 * 16 + b / 16) (b % 16 * 4 + c / 64)
            (letter (c % 64) ∷ encode_base64 bytes) (omega (arith, h.0)) (omega (arith, h.1.0))
            (omega (arith, h.1.1.0)),
        decode-letter 3 _ (c % 64) _ _ (encode_base64 bytes) (omega arith) refl,
        decode-encode bytes h.1.1.1,
        first_byte a b h.1.0,
        second_byte a b c h.1.0 h.1.1.0,
        third_byte b c h.1.1.0,
      )
      refl
