-- ===== src/Dict.antt =====
-- Python's `dict` with text keys: its entries in the order of their insertion.
pub mod Laws
use prometheus_ch_exporter.Prelude.{
  String, ◌≡◌, Bool, Option, none, some, List, [], ◌∷◌, map, ◌==◌, if◌then◌else◌, is_some,
}

abbrev pub Dict {ℓ} : Type ℓ → Type ℓ
Dict V = List (String × V)

module _ {ℓ} {V : Type ℓ} where
  -- `d.get(k)`
  unfoldable pub get : Dict V → String → Option V
  get [] k = none
  get ((j, v) ∷ d) k = if j == k then some v else get d k

  -- `d[k] = v`: a key that is there keeps its place.
  unfoldable pub put : Dict V → String → V → Dict V
  put [] k v = (k, v) ∷ []
  put ((j, w) ∷ d) k v = if j == k then (k, v) ∷ d else (j, w) ∷ put d k v

  -- `d.pop(k, None)`
  unfoldable pub remove : Dict V → String → Dict V
  remove [] k = []
  remove ((j, w) ∷ d) k = if j == k then remove d k else (j, w) ∷ remove d k

  abbrev pub keys : Dict V → List String
  keys = map (λ e. e.0)

  abbrev pub values : Dict V → List V
  values = map (λ e. e.1)

  -- `k in d`
  abbrev pub has : Dict V → String → Bool
  has d k = is_some (get d k)

  -- `d.get(k, default)`
  abbrev pub get_or : Dict V → String → V → V
  get_or d k v = elim (get d k) [ none ↦ v | some w ↦ w ]

  -- No key stands twice, which every operation keeps.
  abbrev pub IsUnique : Dict V → Type ℓ
  IsUnique [] = Unit
  IsUnique ((k, v) ∷ d) = (get d k ≡ none) × IsUnique d
