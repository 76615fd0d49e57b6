-- ===== src/Peering/Sha1.antt =====
-- `hashlib.sha1` (FIPS 180-4), with which src/promch/peering.py ranks the replicas.
use Prim.Native.Nat.{bit_and, bit_or, bit_xor}
use prometheus_ch_exporter.Prelude.{
  ℕ, zero, suc, ◌+◌, ◌-◌, ◌*◌, ◌/◌, ◌%◌, ◌^◌, List, [], ◌∷◌, ◌++◌, length, ltb, nat_eq,
  if◌then◌else◌, true, false,
}

abbrev word : ℕ → ℕ
word n = n % 2 ^ 32

rotate : (by n : ℕ) → ℕ
rotate by n = bit_or (word (n * 2 ^ by)) (n / 2 ^ (32 - by))

zeros : ℕ → List ℕ
zeros zero = []
zeros (suc n) = 0 ∷ zeros n

-- The `count` low bytes of a number, the highest first.
big_endian : (count n : ℕ) → List ℕ
big_endian zero n = []
big_endian (suc count) n = (n / 2 ^ (8 * count) % 256) ∷ big_endian count n

pad : List ℕ → List ℕ
unfolding zeros big_endian
pad bytes =
    bytes ++ (128 ∷ []) ++ zeros ((119 - length bytes % 64) % 64) ++ big_endian 8 (8 * length bytes)

words : List ℕ → List ℕ
words [] = []
words (a ∷ []) = []
words (a ∷ b ∷ []) = []
words (a ∷ b ∷ c ∷ []) = []
words (a ∷ b ∷ c ∷ d ∷ bytes) = (a * 2 ^ 24 + b * 2 ^ 16 + c * 2 ^ 8 + d) ∷ words bytes

nth : List ℕ → ℕ → ℕ
nth [] i = 0
nth (x ∷ xs) zero = x
nth (x ∷ xs) (suc i) = nth xs i

-- The schedule, the latest word first.
extend : (count : ℕ) → List ℕ → List ℕ
unfolding nth rotate
extend zero ws = ws
extend (suc count) ws =
    extend count
      (rotate 1 (bit_xor (bit_xor (nth ws 2) (nth ws 7)) (bit_xor (nth ws 13) (nth ws 15))) ∷ ws)

record State : Type 0 where
  a : ℕ
  b : ℕ
  c : ℕ
  d : ℕ
  e : ℕ

abbrev initial : State
initial = record { a = 0x67452301; b = 0xefcdab89; c = 0x98badcfe; d = 0x10325476; e = 0xc3d2e1f0 }

abbrev complement : ℕ → ℕ
complement n = 2 ^ 32 - 1 - n

abbrev majority : ℕ → ℕ → ℕ → ℕ
majority x y z = bit_or (bit_or (bit_and x y) (bit_and x z)) (bit_and y z)

abbrev parity : ℕ → ℕ → ℕ → ℕ
parity x y z = bit_xor (bit_xor x y) z

abbrev choose : ℕ → ℕ → ℕ → ℕ
choose x y z = bit_or (bit_and x y) (bit_and (complement x) z)

abbrev mix : (round : ℕ) → State → ℕ
mix t s =
    if ltb t 20
    then choose s.b s.c s.d + 0x5a827999
    else if ltb t 40
    then parity s.b s.c s.d + 0x6ed9eba1
    else if ltb t 60
    then majority s.b s.c s.d + 0x8f1bbcdc
    else parity s.b s.c s.d + 0xca62c1d6

-- The schedule comes latest word first, so the rounds are run from its end.
rounds : List ℕ → State → State
unfolding rotate
rounds [] s = s
rounds (w ∷ ws) s =
    let r = rounds ws s in
    record {
      a = word (rotate 5 r.a + mix (length ws) r + r.e + w);
      b = r.a;
      c = rotate 30 r.b;
      d = r.c;
      e = r.d;
    }

compress : List ℕ → State → State
unfolding extend rounds
compress block s =
    let r = rounds (extend 64 block) s in
    record {
      a = word (s.a + r.a);
      b = word (s.b + r.b);
      c = word (s.c + r.c);
      d = word (s.d + r.d);
      e = word (s.e + r.e);
    }

-- Takes blocks of sixteen words; a block holds its latest word first.
blocks : (block : List ℕ) → List ℕ → State → State
unfolding compress
blocks block [] s = s
blocks block (w ∷ ws) s = elim (nat_eq (length block) 15) [
  | true ↦ blocks [] ws (compress (w ∷ block) s)
  | false ↦ blocks (w ∷ block) ws s
]

-- The digest as a number.
unfoldable pub sha1 : List ℕ → ℕ
unfolding pad words blocks
sha1 bytes =
    let s = blocks [] (words (pad bytes)) initial in
    (((s.a * 2 ^ 32 + s.b) * 2 ^ 32 + s.c) * 2 ^ 32 + s.d) * 2 ^ 32 + s.e
