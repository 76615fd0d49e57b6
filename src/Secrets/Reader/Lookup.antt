-- ===== src/Secrets/Reader/Lookup.antt =====
-- What a secret's reader finds under a key, on any data (src/promch/k8s_secrets.py).
use prometheus_ch_exporter.Prelude.{
  ℕ, ◌≡◌, refl, ◌∙◌, String, Option, none, some, List, [], ◌∷◌, arith, eq_iff, Option-cases, inl,
  inr,
}
use prometheus_ch_exporter.Prelude.Result.{ok}
use prometheus_ch_exporter.Dict.{Dict, get, put, IsUnique}
use prometheus_ch_exporter.Dict.Laws.{get-put}
use prometheus_ch_exporter.Secrets.Reader.{
  Transport, decode_value, decode_items, data_or_empty, read_secret,
}

-- The value under a key of the data, if it decodes.
abbrev pub decoded : Option String → Option (List ℕ)
decoded none = none
decoded (some v) = decode_value v

abbrev pub or_else : Option (List ℕ) → Option (List ℕ) → Option (List ℕ)
or_else none o = o
or_else (some t) o = some t

or_else-none : (o : Option (List ℕ)) → or_else o none ≡ o
or_else-none none = refl
or_else-none (some t) = refl

pub decode_items_skip :
    (out : Dict (List ℕ)) (raw : Dict String) (j v : String)
    → decode_value v ≡ none
    → decode_items out ((j, v) ∷ raw) ≡ decode_items out raw
unfolding decode_items
decode_items_skip out raw j v h = rw (decode_items, h) refl

pub decode_items_keep :
    (out : Dict (List ℕ)) (raw : Dict String) (j v : String) (t : List ℕ)
    → decode_value v ≡ some t
    → decode_items out ((j, v) ∷ raw) ≡ decode_items (put out j t) raw
unfolding decode_items
decode_items_keep out raw j v t h = rw (decode_items, h) refl

get-decode_items :
    (raw : Dict String) (out : Dict (List ℕ)) (k : String)
    → IsUnique raw
    → get (decode_items out raw) k ≡ or_else (decoded (get raw k)) (get out k)
unfolding decode_items get
get-decode_items [] out k u = refl
get-decode_items ((j, v) ∷ raw) out k u = elim (Option-cases (decode_value v)) [
  | inl n ↦
      rw (decode_items_skip out raw j v n, get-decode_items raw out k u.1)
        (ground (arith, n, u.0, eq_iff j k))
  | inr s ↦
      rw
        (
          decode_items_keep out raw j v s.0 s.1,
          get-decode_items raw (put out j s.0) k u.1,
          get-put out j s.0 k,
        )
        (ground (arith, s.1, u.0, eq_iff j k))
]

-- The answer with status 200: a key has a value exactly where the data has a value under it that
-- decodes, and then it is that value.
abbrev pub IsLookup : Dict String → Dict (List ℕ) → Type 0
IsLookup raw found = (k : String) → get found k ≡ decoded (get raw k)

-- A secret with status 200 and unique keys is read: a key has a value exactly where the data has a
-- value under it that decodes, and then it is that value.
pub read_secret-IsLookup :
    (transport : Transport) (namespace name : String) (body : Option (Dict String))
    → transport namespace name ≡ (200, body)
    → IsUnique (data_or_empty body)
    → (found : Dict (List ℕ)) × (read_secret transport namespace name ≡ ok found)
      × IsLookup (data_or_empty body) found
unfolding read_secret get
read_secret-IsLookup transport namespace name body answers u = (
  decode_items [] (data_or_empty body),
  rw answers refl,
  λ k.
      get-decode_items (data_or_empty body) [] k u
      ∙ or_else-none (decoded (get (data_or_empty body) k)),
)
