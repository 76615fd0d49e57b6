-- ===== src/Secrets/Reader/Bounds.antt =====
-- The values that a secret's reader gives, whatever the transport answers (src/promch/k8s_secrets.py).
use prometheus_ch_exporter.Prelude.{
  ℕ, ◌≡◌, subst, String, List, [], ◌∷◌, arith, All, any_of, leb, Bool-cases, Option-cases, inl, inr,
}
use prometheus_ch_exporter.Prelude.Text.{codes}
use prometheus_ch_exporter.Prelude.Result.{ok}
use prometheus_ch_exporter.Dict.{Dict, put, IsUnique}
use prometheus_ch_exporter.Dict.Laws.{put-IsUnique}
use prometheus_ch_exporter.Secrets.Base64.{at_start, decode_base64}
use prometheus_ch_exporter.Secrets.Utf8.Coding.{IsScalar}
use prometheus_ch_exporter.Secrets.Utf8.Bounds.{AllScalars, decode_utf8-AllScalars}
use prometheus_ch_exporter.Secrets.Reader.{
  Transport, data_or_empty, decode_value, decode_items, read_secret,
}
use prometheus_ch_exporter.Secrets.Reader.Lookup.{decode_items_skip, decode_items_keep}

decode_value-AllScalars : (v : String) → AllScalars (decode_value v)
unfolding decode_value
decode_value-AllScalars v = elim (Bool-cases (any_of (leb 128) (codes v))) [
  | inl wide ↦ rw wide tt
  | inr ascii ↦ elim (Option-cases (decode_base64 at_start (codes v))) [
    | inl n ↦ rw (ascii, n) tt
    | inr s ↦ rw (ascii, s.1) (decode_utf8-AllScalars s.0)
  ]
]

-- A dictionary whose keys differ and whose values are sequences of Unicode scalar values.
abbrev pub IsTexts : Dict (List ℕ) → Type 0
IsTexts found = IsUnique found × All (λ e. All IsScalar e.1) found

put-All_scalars :
    (found : Dict (List ℕ)) (k : String) (value : List ℕ)
    → All IsScalar value
    → All (λ e. All IsScalar e.1) found
    → All (λ e. All IsScalar e.1) (put found k value)
unfolding put
put-All_scalars [] k value scalars all = (scalars, tt)
put-All_scalars ((j, w) ∷ found) k value scalars all =
    ground (arith, put-All_scalars found k value scalars all.1)

decode_items-IsTexts :
    (raw : Dict String) (out : Dict (List ℕ)) → IsTexts out → IsTexts (decode_items out raw)
unfolding decode_items
decode_items-IsTexts [] out texts = texts
decode_items-IsTexts ((k, v) ∷ raw) out texts = elim (Option-cases (decode_value v)) [
  | inl n ↦ rw (decode_items_skip out raw k v n) (decode_items-IsTexts raw out texts)
  | inr s ↦ rw (decode_items_keep out raw k v s.0 s.1) (
      decode_items-IsTexts raw (put out k s.0) (
        put-IsUnique out k s.0 texts.0,
        put-All_scalars out k s.0 (subst AllScalars s.1 (decode_value-AllScalars v)) texts.1,
      ))
]

read_secret-ok :
    (transport : Transport) (namespace name : String) (found : Dict (List ℕ))
    → read_secret transport namespace name ≡ ok found
    → decode_items [] (data_or_empty (transport namespace name).1) ≡ found
unfolding read_secret
read_secret-ok transport namespace name found returns = ground arith

-- A secret that is read has each key once, and each value is a sequence of Unicode scalar values,
-- whatever bytes the API server answered.
pub read_secret-IsTexts :
    (transport : Transport) (namespace name : String) (found : Dict (List ℕ))
    → read_secret transport namespace name ≡ ok found
    → IsTexts found
read_secret-IsTexts transport namespace name found returns =
    subst IsTexts (read_secret-ok transport namespace name found returns)
      (decode_items-IsTexts (data_or_empty (transport namespace name).1) [] (tt, tt))
