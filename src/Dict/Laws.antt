-- ===== src/Dict/Laws.antt =====
-- What a client of a dictionary relies on.
use prometheus_ch_exporter.Prelude.{
  String, ◌≡◌, refl, none, some, [], ◌∷◌, arith, ◌==◌, eq_iff, if◌then◌else◌, ◌++◌, is_some,
  contains,
}
use prometheus_ch_exporter.Dict.{Dict, get, put, remove, has, keys, IsUnique}

module _ {ℓ} {V : Type ℓ} where
  pub get-put :
      (d : Dict V) (k : String) (v : V) (j : String)
      → get (put d k v) j ≡ (if k == j then some v else get d j)
  unfolding get put
  get-put [] k v j = refl
  get-put ((i, w) ∷ d) k v j = ground (arith, eq_iff k j, eq_iff i k, eq_iff i j, get-put d k v j)

  pub get-remove :
      (d : Dict V) (k j : String) → get (remove d k) j ≡ (if k == j then none else get d j)
  unfolding get remove
  get-remove [] k j = ground arith
  get-remove ((i, w) ∷ d) k j = ground (arith, eq_iff k j, eq_iff i k, eq_iff i j, get-remove d k j)

  pub put-IsUnique : (d : Dict V) (k : String) (v : V) → IsUnique d → IsUnique (put d k v)
  unfolding get put
  put-IsUnique [] k v u = (refl, tt)
  put-IsUnique ((i, w) ∷ d) k v u =
      ground (arith, eq_iff i k, eq_iff k i, get-put d k v i, put-IsUnique d k v u.1)

  pub remove-IsUnique : (d : Dict V) (k : String) → IsUnique d → IsUnique (remove d k)
  unfolding get remove
  remove-IsUnique [] k u = tt
  remove-IsUnique ((i, w) ∷ d) k u =
      ground (arith, eq_iff i k, eq_iff k i, get-remove d k i, remove-IsUnique d k u.1)

pub ruleset dict_laws = (get-put, get-remove)

module _ {ℓ} {V : Type ℓ} where
  pub put_same : (d : Dict V) (k : String) (v : V) → get d k ≡ some v → put d k v ≡ d
  unfolding get put
  put_same [] k v h = cc
  put_same ((j, w) ∷ d) k v h = ground (arith, eq_iff j k, put_same d k v)

  pub put_fresh : (d : Dict V) (k : String) (v : V) → get d k ≡ none → put d k v ≡ d ++ (k, v) ∷ []
  unfolding get put
  put_fresh [] k v h = refl
  put_fresh ((j, w) ∷ d) k v h = ground (arith, put_fresh d k v)

  pub get-append :
      (d e : Dict V) (k : String)
      → get (d ++ e) k ≡ (if is_some (get d k) then get d k else get e k)
  unfolding get
  get-append [] e k = refl
  get-append ((j, w) ∷ d) e k = ground (arith, get-append d e k)

  pub contains-keys-has : (d : Dict V) (k : String) → contains (keys d) k ≡ has d k
  unfolding get
  contains-keys-has [] k = refl
  contains-keys-has ((j, v) ∷ d) k = ground (arith, contains-keys-has d k)
