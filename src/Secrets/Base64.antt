-- ===== src/Secrets/Base64.antt =====
-- `base64.b64decode` on a text, as src/promch/k8s_secrets.py uses it: the lenient decoder, which skips
-- what is not in the alphabet. The encoder is the one of RFC 4648, with which the API server writes.
pub mod Coding
pub mod Bounds
use prometheus_ch_exporter.Prelude.{
  ℕ, ◌+◌, ◌-◌, ◌*◌, ◌/◌, ◌%◌, Bool, true, false, ◌&&◌, Option, none, some, List, [], ◌∷◌, ◌++◌, leb,
  nat_eq, if◌then◌else◌,
}

-- The value of a character of the alphabet.
unfoldable pub sextet : ℕ → Option ℕ
sextet c =
    if leb b'A' c && leb c b'Z'
    then some (c - b'A')
    else if leb b'a' c && leb c b'z'
    then some (c - b'a' + 26)
    else if leb b'0' c && leb c b'9'
    then some (c - b'0' + 52)
    else if nat_eq c b'+'
    then some 62
    else if nat_eq c b'/'
    then some 63
    else none

-- The place in a group of four, the bits left over, and the number of `=` in a row.
pub record Quad : Type 0 where
  pub place : ℕ
  pub left : ℕ
  pub pads : ℕ

abbrev pub at_start : Quad
at_start = record { place = 0; left = 0; pads = 0 }

-- What one character does: it ends the input, or gives bytes.
pub data Fed : Type 0 where
  ended : Fed
  more : Quad → List ℕ → Fed

abbrev pub take_sextet : Quad → ℕ → Fed
take_sextet q v =
    if nat_eq q.place 0
    then more (record { place = 1; left = v; pads = 0 }) []
    else if nat_eq q.place 1
    then more (record { place = 2; left = v % 16; pads = 0 }) ((q.left * 4 + v / 16) ∷ [])
    else if nat_eq q.place 2
    then more (record { place = 3; left = v % 4; pads = 0 }) ((q.left * 16 + v / 4) ∷ [])
    else more at_start ((q.left * 64 + v) ∷ [])

abbrev pub take_pad : Quad → Fed
take_pad q =
    if leb 2 q.place
    then (if leb 4 (q.place + (q.pads + 1))
        then ended
        else more (record q { pads = q.pads + 1 }) [])
    else more q []

unfoldable pub feed : Quad → ℕ → Fed
unfolding sextet
feed q c =
    if nat_eq c b'='
    then take_pad q
    else elim (sextet c) [ none ↦ more q [] | some v ↦ take_sextet q v ]

-- none is the ValueError of an incomplete group.
unfoldable pub decode_base64 : Quad → List ℕ → Option (List ℕ)
unfolding feed
decode_base64 q [] = if nat_eq q.place 0 then some [] else none
decode_base64 q (c ∷ cs) = elim (feed q c) [
  | ended ↦ some []
  | more q' out ↦ elim (decode_base64 q' cs) [ none ↦ none | some bytes ↦ some (out ++ bytes) ]
]

unfoldable pub letter : ℕ → ℕ
letter v =
    if leb v 25
    then v + b'A'
    else if leb v 51
    then v - 26 + b'a'
    else if leb v 61
    then v - 52 + b'0'
    else if nat_eq v 62
    then b'+'
    else b'/'

unfoldable pub encode_base64 : List ℕ → List ℕ
unfolding letter
encode_base64 [] = []
encode_base64 (a ∷ []) = letter (a / 4) ∷ letter (a % 4 * 16) ∷ b'=' ∷ b'=' ∷ []
encode_base64 (a ∷ b ∷ []) =
    letter (a / 4) ∷ letter (a % 4 * 16 + b / 16) ∷ letter (b % 16 * 4) ∷ b'=' ∷ []
encode_base64 (a ∷ b ∷ c ∷ bytes) =
    letter (a / 4)
    ∷ letter (a % 4 * 16 + b / 16)
    ∷ letter (b % 16 * 4 + c / 64)
    ∷ letter (c % 64)
    ∷ encode_base64 bytes
