-- ===== src/Prelude/Sorting.antt =====
-- `sorted(set_of_texts)`: the distinct texts in ascending order of their code points.
use Prim.Native.Nat.{Ordering}
use Prim.Native.String.{String, compare}
use mathlib.Core.Path.{◌≡◌, refl}
use mathlib.Core.Bool.{Bool, true, false, ◌||◌}
use mathlib.Core.List.{List, [], ◌∷◌}
use native.Mathlib.Omega.{arith}
use text.Mathlib.Text.{◌==◌}
use text.Mathlib.TextEquality.{eq_iff}
use prometheus_ch_exporter.Prelude.Tests.{if◌then◌else◌, nonempty}
use prometheus_ch_exporter.Prelude.Lists.{contains}

abbrev pub text_le : String → String → Bool
text_le s t = elim (compare s t) [ Ordering.gt ↦ false | _ ↦ true ]

-- Puts a text at its place, once.
unfoldable pub insert_text : String → List String → List String
insert_text s [] = s ∷ []
insert_text s (t ∷ ts) =
    if s == t then t ∷ ts else if text_le s t then s ∷ t ∷ ts else t ∷ insert_text s ts

unfoldable pub sorted_set : List String → List String
unfolding insert_text
sorted_set [] = []
sorted_set (s ∷ ss) = insert_text s (sorted_set ss)

contains-insert_text :
    (s t : String) (ts : List String) → contains (insert_text s ts) t ≡ (s == t || contains ts t)
unfolding insert_text
contains-insert_text s t [] = refl
contains-insert_text s t (x ∷ ts) =
    ground (arith, contains-insert_text s t ts, eq_iff s x, eq_iff s t, eq_iff x t)

-- Sorting a set neither adds nor drops a text.
pub contains-sorted_set :
    (ss : List String) (t : String) → contains (sorted_set ss) t ≡ contains ss t
unfolding sorted_set
contains-sorted_set [] t = refl
contains-sorted_set (s ∷ ss) t =
    rw (contains-insert_text s t (sorted_set ss)) (rw (contains-sorted_set ss t))

nonempty-insert_text : (s : String) (ts : List String) → nonempty (insert_text s ts) ≡ true
unfolding insert_text
nonempty-insert_text s [] = refl
nonempty-insert_text s (t ∷ ts) = ground arith

pub nonempty-sorted_set : (ss : List String) → nonempty (sorted_set ss) ≡ nonempty ss
unfolding sorted_set
nonempty-sorted_set [] = refl
nonempty-sorted_set (s ∷ ss) = nonempty-insert_text s (sorted_set ss)
