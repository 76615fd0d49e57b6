-- ===== src/Prelude/Text.antt =====
-- Python's text methods that the program uses, over the characters of a native text.
use Prim.Native.Nat.{ℕ, zero, suc, ◌/◌, ◌%◌}
use Prim.Native.Char.{code}
use Prim.Native.String.{String}
use Prim.Native.String as Str
use mathlib.Core.Path.{◌≡◌, refl}
use mathlib.Core.Bool.{Bool, true, false, not, ◌&&◌, ◌||◌}
use mathlib.Core.List.{List, [], ◌∷◌, map}
use text.Mathlib.Text.{◌==◌}
use prometheus_ch_exporter.Prelude.Tests.{if◌then◌else◌, nat_eq, leb, ltb}

-- The code points of a text.
abbrev pub codes : String → List ℕ
codes String.[] = []
codes (String.◌∷◌ c s) = code c ∷ codes s

-- `sep.join(texts)`
unfoldable pub join : String → List String → String
join sep [] = ""
join sep (s ∷ []) = s
join sep (s ∷ t ∷ ts) = Str.◌++◌ s (Str.◌++◌ sep (join sep (t ∷ ts)))

-- `s.rstrip(c)` for one character, given by its code.
unfoldable pub rstrip : ℕ → String → String
rstrip c String.[] = ""
rstrip c (String.◌∷◌ x s) =
    let rest = rstrip c s in if nat_eq (code x) c && (rest == "") then "" else String.◌∷◌ x rest

-- `c in s` for one character, given by its code.
unfoldable pub has_char : ℕ → String → Bool
has_char c String.[] = false
has_char c (String.◌∷◌ x s) = nat_eq (code x) c || has_char c s

escape : ℕ → String → String
escape quote String.[] = ""
escape quote (String.◌∷◌ x s) =
    let rest = escape quote s in
    let c = code x in
    if nat_eq c b'\\' || nat_eq c quote
    then Str.◌++◌ "\\" (String.◌∷◌ x rest)
    else if nat_eq c 10
    then Str.◌++◌ "\\n" rest
    else if nat_eq c 13
    then Str.◌++◌ "\\r" rest
    else if nat_eq c 9
    then Str.◌++◌ "\\t" rest
    else String.◌∷◌ x rest

-- `repr(s)` of a text whose other characters are printable.
unfoldable pub repr : String → String
unfolding escape has_char
repr s =
    if has_char b'\'' s && not (has_char b'"' s)
    then Str.◌++◌ "\"" (Str.◌++◌ (escape b'"' s) "\"")
    else Str.◌++◌ "'" (Str.◌++◌ (escape b'\'' s) "'")

-- `repr(texts)` of a list of texts
unfoldable pub repr_list : List String → String
unfolding repr join
repr_list texts = Str.◌++◌ "[" (Str.◌++◌ (join ", " (map repr texts)) "]")

repr_quoted : repr_list ("a" ∷ "it's" ∷ []) ≡ "['a', \"it's\"]"
unfolding repr_list
repr_quoted = refl

strip_two : rstrip b'_' "click_house__" ≡ "click_house"
unfolding rstrip
strip_two = refl

join_three : join ", " ("a" ∷ "b" ∷ "c" ∷ []) ≡ "a, b, c"
unfolding join
join_three = refl

-- The whitespace of ASCII.
abbrev is_space : ℕ → Bool
is_space c = (leb 9 c && leb c 13) || (leb 28 c && leb c 32)

unfoldable pub lstrip : String → String
lstrip String.[] = ""
lstrip (String.◌∷◌ c s) = let rest = lstrip s in if is_space (code c) then rest else String.◌∷◌ c s

unfoldable pub rstrip_spaces : String → String
rstrip_spaces String.[] = ""
rstrip_spaces (String.◌∷◌ c s) =
    let rest = rstrip_spaces s in
    if is_space (code c) && (rest == "") then "" else String.◌∷◌ c rest

-- `s.strip()` of an ASCII text.
unfoldable pub strip : String → String
unfolding lstrip rstrip_spaces
strip s = lstrip (rstrip_spaces s)

digit : ℕ → String
digit n =
    if nat_eq n 0
    then "0"
    else if nat_eq n 1
    then "1"
    else if nat_eq n 2
    then "2"
    else if nat_eq n 3
    then "3"
    else if nat_eq n 4
    then "4"
    else if nat_eq n 5
    then "5"
    else if nat_eq n 6
    then "6"
    else if nat_eq n 7
    then "7"
    else if nat_eq n 8
    then "8"
    else "9"

-- `str(n)`, on fuel; one more than the number is enough.
unfoldable pub decimal : (fuel : ℕ) → ℕ → String
unfolding digit
decimal zero n = ""
decimal (suc fuel) n = elim (ltb n 10) [
  | true ↦ digit n
  | false ↦ Str.◌++◌ (decimal fuel (n / 10)) (digit (n % 10))
]
