-- ===== src/Secrets/Reader.antt =====
-- src/promch/k8s_secrets.py. The transport, which does the HTTP request, is a parameter: it answers
-- a namespace and a name by a status and the `data` of the body. Decoded values are code points.
pub mod Lookup
pub mod RoundTrip
pub mod Bounds
use prometheus_ch_exporter.Prelude.{
  ℕ, zero, suc, ◌/◌, ◌%◌, Bool, true, false, String, ◌<>◌, Option, none, some, List, [], ◌∷◌, leb,
  ltb, nat_eq, if◌then◌else◌, any_of, text_truthy,
}
use prometheus_ch_exporter.Prelude.Text.{codes, strip, decimal}
use prometheus_ch_exporter.Prelude.Result.{Result, ok, err}
use prometheus_ch_exporter.Dict.{Dict, put}
use prometheus_ch_exporter.Secrets.Base64.{at_start, decode_base64}
use prometheus_ch_exporter.Secrets.Utf8.{no_partial, decode_utf8}

-- `POD_NAMESPACE`, if it is set, and the mounted file, if it can be read.
unfoldable pub operator_namespace : (pod_namespace file : Option String) → String
unfolding strip
operator_namespace none none = "default"
operator_namespace none (some content) = strip content
operator_namespace (some ns) none = if text_truthy ns then ns else "default"
operator_namespace (some ns) (some content) = if text_truthy ns then ns else strip content

abbrev pub Transport : Type 0
Transport = (namespace name : String) → ℕ × Option (Dict String)

-- `base64.b64decode(v).decode("utf-8")`; none is a value that is skipped. A text that is not ASCII
-- is a ValueError of b64decode.
unfoldable pub decode_value : String → Option (List ℕ)
unfolding decode_base64 decode_utf8
decode_value v =
    if any_of (leb 128) (codes v) then none else elim (decode_base64 at_start (codes v)) [
      | none ↦ none
      | some bytes ↦ decode_utf8 no_partial bytes
    ]

-- The loop over `raw.items()`, which fills `out`.
unfoldable pub decode_items : (out : Dict (List ℕ)) → Dict String → Dict (List ℕ)
unfolding decode_value put
decode_items out [] = out
decode_items out ((k, v) ∷ raw) = elim (decode_value v) [
  | none ↦ decode_items out raw
  | some value ↦ decode_items (put out k value) raw
]

-- `body.get("data") or {}`
abbrev pub data_or_empty : Option (Dict String) → Dict String
data_or_empty none = []
data_or_empty (some items) = items

-- The error is the message of the SecretResolutionError.
unfoldable pub read_secret : Transport → (namespace name : String) → Result String (Dict (List ℕ))
unfolding decode_items decimal
read_secret transport namespace name =
    let (status, found) = transport namespace name in
    if nat_eq status 404
    then err ("secret " <> (namespace <> ("/" <> (name <> " not found"))))
    else if nat_eq status 200
    then ok (decode_items [] (data_or_empty found))
    else err (
        "reading secret "
        <> (namespace
            <> ("/" <> (name <> (": API server returned HTTP " <> decimal (suc status) status)))))
