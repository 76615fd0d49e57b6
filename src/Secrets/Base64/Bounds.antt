-- ===== src/Secrets/Base64/Bounds.antt =====
-- What the base64 decoder gives is bytes, on any text (src/promch/k8s_secrets.py).
use prometheus_ch_exporter.Prelude.{
  ℕ, ◌<◌, ◌≡◌, refl, subst, Option, none, some, List, [], ◌∷◌, arith, All, nat_eq, All-append,
  Option-cases, ◌⊎◌, inl, inr, Bool-cases,
}
use prometheus_ch_exporter.Secrets.Base64.{
  sextet, Quad, at_start, Fed, ended, more, take_sextet, take_pad, feed, decode_base64,
}
use prometheus_ch_exporter.Secrets.Base64.Coding.{IsByte, decode-more}

-- The bits left over at a place in a group.
abbrev IsQuad : Quad → Type 0
IsQuad q =
    (q.place ≡ 0)
    ⊎ (((q.place ≡ 1) × (q.left < 64))
        ⊎ (((q.place ≡ 2) × (q.left < 16)) ⊎ ((q.place ≡ 3) × (q.left < 4))))

-- A character gives bytes, and leaves bits that fit the place.
abbrev IsFed : Fed → Type 0
IsFed ended = Unit
IsFed (more q out) = IsQuad q × All IsByte out

sextet-bound : (c v : ℕ) → sextet c ≡ some v → v < 64
unfolding sextet
sextet-bound c v h = ground arith

take_sextet-IsFed : (q : Quad) (v : ℕ) → IsQuad q → v < 64 → IsFed (take_sextet q v)
take_sextet-IsFed q v fits h = ground arith

take_pad-IsFed : (q : Quad) → IsQuad q → IsFed (take_pad q)
take_pad-IsFed q fits = ground arith

feed-IsFed : (q : Quad) (c : ℕ) → IsQuad q → IsFed (feed q c)
unfolding feed
feed-IsFed q c fits = elim (Bool-cases (nat_eq c b'=')) [
  | inl pad ↦ rw pad (take_pad-IsFed q fits)
  | inr other ↦ rw other (elim (Option-cases (sextet c)) [
    | inl n ↦ rw n (fits, tt)
    | inr s ↦ rw s.1 (take_sextet-IsFed q s.0 fits (sextet-bound c s.0 s.1))
  ])
]

Fed-cases : (fed : Fed) → (fed ≡ ended) ⊎ ((q : Quad) × (out : List ℕ) × (fed ≡ more q out))
Fed-cases ended = inl refl
Fed-cases (more q out) = inr (q, out, refl)

-- The bytes of a decoded text, if there are any.
abbrev pub AllBytes : Option (List ℕ) → Type 0
AllBytes none = Unit
AllBytes (some bytes) = All IsByte bytes

decode-AllBytes : (q : Quad) (cs : List ℕ) → IsQuad q → AllBytes (decode_base64 q cs)
unfolding decode_base64
decode-AllBytes q [] fits = elim (Bool-cases (nat_eq q.place 0)) [
  | inl t ↦ rw t tt
  | inr f ↦ rw f tt
]
decode-AllBytes q (c ∷ cs) fits = elim (Fed-cases (feed q c)) [
  | inl e ↦ rw (decode_base64, e) tt
  | inr m ↦
      let fed = subst IsFed m.2 (feed-IsFed q c fits) in
      let rest = decode-AllBytes m.0 cs fed.0 in
      elim (Option-cases (decode_base64 m.0 cs)) [
        | inl n ↦ rw (decode-more q m.0 c m.1 cs m.2, n) tt
        | inr s ↦
            rw (decode-more q m.0 c m.1 cs m.2, s.1)
              (All-append IsByte m.1 s.0 fed.1 (subst AllBytes s.1 rest))
      ]
]

pub decode_base64-All_bytes :
    (cs bytes : List ℕ) → decode_base64 at_start cs ≡ some bytes → All IsByte bytes
decode_base64-All_bytes cs bytes h = subst AllBytes h (decode-AllBytes at_start cs (inl refl))
