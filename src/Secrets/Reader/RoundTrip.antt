-- ===== src/Secrets/Reader/RoundTrip.antt =====
-- A secret read back as it was written (src/promch/k8s_secrets.py).
use prometheus_ch_exporter.Prelude.{
  ℕ, ◌≡◌, refl, ◌∙◌, false, String, none, some, List, [], ◌∷◌, ◌++◌, arith, All, any_of, leb, sym,
  subst, ◌/◌, ◌%◌, ◌+◌, ◌*◌, eq_iff, eq_refl,
}
use mathlib.Core.List.{append_assoc, append-nil}
use prometheus_ch_exporter.Prelude.Text.{codes}
use prometheus_ch_exporter.Prelude.Result.{ok}
use prometheus_ch_exporter.Dict.{Dict, get, IsUnique}
use prometheus_ch_exporter.Dict.Laws.{put_fresh, get-append}
use prometheus_ch_exporter.Secrets.Base64.{letter, encode_base64}
use prometheus_ch_exporter.Secrets.Base64.Coding.{decode-encode}
use prometheus_ch_exporter.Secrets.Utf8.{encode_utf8}
use prometheus_ch_exporter.Secrets.Utf8.Coding.{
  IsScalar, encode_utf8-All_bytes, decode_utf8-encode_utf8,
}
use prometheus_ch_exporter.Secrets.Reader.{Transport, decode_value, decode_items, read_secret}
use prometheus_ch_exporter.Secrets.Reader.Lookup.{decode_items_keep}

letter-IsAscii : (v : ℕ) → leb 128 (letter v) ≡ false
unfolding letter
letter-IsAscii v = ground arith

encode_base64-IsAscii : (bytes : List ℕ) → any_of (leb 128) (encode_base64 bytes) ≡ false
unfolding encode_base64
encode_base64-IsAscii [] = refl
encode_base64-IsAscii (a ∷ []) = rw (letter-IsAscii (a / 4), letter-IsAscii (a % 4 * 16)) refl
encode_base64-IsAscii (a ∷ b ∷ []) =
    rw (letter-IsAscii (a / 4), letter-IsAscii (a % 4 * 16 + b / 16), letter-IsAscii (b % 16 * 4))
      refl
encode_base64-IsAscii (a ∷ b ∷ c ∷ bytes) =
    rw
      (
        letter-IsAscii (a / 4),
        letter-IsAscii (a % 4 * 16 + b / 16),
        letter-IsAscii (b % 16 * 4 + c / 64),
        letter-IsAscii (c % 64),
      )
      (encode_base64-IsAscii bytes)

-- What the API server stores for a text.
abbrev pub IsStored : (value : List ℕ) → String → Type 0
IsStored value v = codes v ≡ encode_base64 (encode_utf8 value)

decode_value_stored :
    (value : List ℕ) (v : String)
    → All IsScalar value
    → IsStored value v
    → decode_value v ≡ some value
unfolding decode_value
decode_value_stored value v scalars stored =
    rw
      (
        stored,
        encode_base64-IsAscii (encode_utf8 value),
        decode-encode (encode_utf8 value) (encode_utf8-All_bytes value scalars),
      )
      (decode_utf8-encode_utf8 value scalars)

-- The values of a secret, and the data that the API server has of them.
abbrev pub IsSecret : Dict (List ℕ) → Dict String → Type 0
IsSecret [] [] = Unit
IsSecret ((j, value) ∷ values) ((k, v) ∷ raw) =
    (j ≡ k) × (All IsScalar value × (IsStored value v × IsSecret values raw))
IsSecret [] (_ ∷ _) = ⊥
IsSecret (_ ∷ _) [] = ⊥

-- A key that comes later in a dictionary is not among the keys before it.
get_before :
    (before after : Dict (List ℕ)) (k : String) (value : List ℕ)
    → IsUnique (before ++ (k, value) ∷ after)
    → get before k ≡ none
unfolding get
get_before [] after k value u = refl
get_before ((j, w) ∷ before) after k value u = ground (
  arith,
  u.0,
  get-append before ((k, value) ∷ after) j,
  eq_iff k j,
  eq_iff j k,
  eq_refl k,
  get_before before after k value u.1,
)

decode_items_stored :
    (values out : Dict (List ℕ)) (raw : Dict String)
    → IsUnique (out ++ values)
    → IsSecret values raw
    → decode_items out raw ≡ out ++ values
unfolding decode_items
decode_items_stored [] out [] u secret = sym (append-nil out)
decode_items_stored [] out (e ∷ raw) u secret = elim secret [ ]
decode_items_stored (e ∷ values) out [] u secret = elim secret [ ]
decode_items_stored ((j, value) ∷ values) out ((k, v) ∷ raw) u secret =
    let moved = append_assoc out ((j, value) ∷ []) values in
    decode_items_keep out raw k v value (decode_value_stored value v secret.1.0 secret.1.1.0)
    ∙ rw
        (
          sym secret.0,
          put_fresh out j value (get_before out values j value u),
          decode_items_stored values (out ++ (j, value) ∷ []) raw (subst IsUnique (sym moved) u)
              secret.1.1.1,
        )
        moved

-- A secret whose keys differ and whose values are texts comes back as it was written.
pub read_secret_stored :
    (transport : Transport) (namespace name : String) (values : Dict (List ℕ)) (raw : Dict String)
    → transport namespace name ≡ (200, some raw)
    → IsUnique values
    → IsSecret values raw
    → read_secret transport namespace name ≡ ok values
unfolding read_secret
read_secret_stored transport namespace name values raw answers u secret =
    rw (answers, decode_items_stored values [] raw u secret) refl
