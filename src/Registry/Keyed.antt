-- ===== src/Registry/Keyed.antt =====
-- Python's `dict` whose keys are pairs of texts: `_connections` of src/promch/handlers/connection.py.
use prometheus_ch_exporter.Prelude.{
  String, ◌≡◌, refl, Bool, true, ◌&&◌, Option, none, some, List, [], ◌∷◌, arith, ◌==◌, eq_iff,
  eq_refl, if◌then◌else◌, map,
}

abbrev pub Key : Type 0
Key = String × String

abbrev pub same_key : Key → Key → Bool
same_key j k = (j.0 == k.0) && (j.1 == k.1)

abbrev pub KeyDict {ℓ} : Type ℓ → Type ℓ
KeyDict V = List (Key × V)

pub same_key-eq : (j k : Key) → same_key j k ≡ true → j ≡ k
same_key-eq j k h = ground (arith, eq_iff j.0 k.0, eq_iff j.1 k.1)

pub same_key_refl : (k : Key) → same_key k k ≡ true
same_key_refl k = ground (arith, eq_refl k.0, eq_refl k.1)

module _ {ℓ} {V : Type ℓ} where
  -- `d.get(k)`
  unfoldable pub find : KeyDict V → Key → Option V
  find [] k = none
  find ((j, v) ∷ d) k = if same_key j k then some v else find d k

  -- `d[k] = v`
  unfoldable pub set : KeyDict V → Key → V → KeyDict V
  set [] k v = (k, v) ∷ []
  set ((j, w) ∷ d) k v = if same_key j k then (k, v) ∷ d else (j, w) ∷ set d k v

  -- `d.pop(k, None)`, without the value
  unfoldable pub drop : KeyDict V → Key → KeyDict V
  drop [] k = []
  drop ((j, w) ∷ d) k = if same_key j k then drop d k else (j, w) ∷ drop d k

  abbrev pub objects : KeyDict V → List V
  objects = map (λ e. e.1)

  pub find-set :
      (d : KeyDict V) (k : Key) (v : V) (j : Key)
      → find (set d k v) j ≡ (if same_key k j then some v else find d j)
  unfolding find set
  find-set [] k v j = refl
  find-set ((i, w) ∷ d) k v j =
      ground (
        arith,
        same_key-eq k j,
        same_key-eq i k,
        same_key-eq i j,
        same_key_refl i,
        find-set d k v j,
      )

  pub find-drop :
      (d : KeyDict V) (k j : Key) → find (drop d k) j ≡ (if same_key k j then none else find d j)
  unfolding find drop
  find-drop [] k j = ground arith
  find-drop ((i, w) ∷ d) k j =
      ground
        (arith, same_key-eq k j, same_key-eq i k, same_key-eq i j, same_key_refl i, find-drop d k j)
