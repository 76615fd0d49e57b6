-- ===== src/Query/Naming/Prefix.antt =====
-- What `apply_prefix` of src/promch/handlers/query_status.py guarantees of a metric's name.
use text.Mathlib.TextPositions.{starts_with-append}
use prometheus_ch_exporter.Prelude.{
  String, ◌<>◌, ◌≡◌, refl, Bool, true, false, not, ◌&&◌, ◌||◌, ◌==◌, eq_iff, arith, starts_with,
  text_truthy,
}
use prometheus_ch_exporter.Prelude.Result.{Result, ok, err}
use prometheus_ch_exporter.Query.Naming.{apply_prefix, prefix_error}

-- The name begins with the prefix already.
abbrev pub has_prefix : (name prefix : String) → Bool
has_prefix name prefix = text_truthy prefix && starts_with name (prefix <> "_")

-- The name collides with the prefix, and the policy does not say what to do.
abbrev pub collides : (name prefix policy : String) → Bool
collides name prefix policy = has_prefix name prefix && not (policy == "skip" || policy == "append")

-- What a caller of `apply_prefix` relies on.
abbrev pub IsNamespaced : (name prefix policy : String) → Result String String → Type 0
IsNamespaced name prefix policy (ok n) =
    (collides name prefix policy ≡ false)
    × (text_truthy prefix ≡ true → starts_with n (prefix <> "_") ≡ true)
    × (prefix ≡ "" → n ≡ name)
    × (has_prefix name prefix ≡ true → policy ≡ "skip" → n ≡ name)
    × (has_prefix name prefix ≡ true → policy ≡ "append" → n ≡ (prefix <> "_") <> name)
    × (has_prefix name prefix ≡ false → text_truthy prefix ≡ true → n ≡ (prefix <> "_") <> name)
IsNamespaced name prefix policy (err message) =
    (collides name prefix policy ≡ true) × (message ≡ prefix_error name prefix)

append_no_skip : (policy : String) → policy ≡ "append" → policy == "skip" ≡ false
append_no_skip policy e = rw e refl

-- `apply_prefix` raises exactly if the name begins with a prefix that is not empty and the policy is
-- neither `skip` nor `append`. With an empty prefix the name stays. A name that begins with the prefix
-- stays under `skip` and gets it again under `append`; any other gets it. So the result begins with
-- the prefix and an underscore unless the prefix is empty.
pub apply_prefix-IsNamespaced :
    (name prefix policy : String)
    → IsNamespaced name prefix policy (apply_prefix name prefix policy)
unfolding apply_prefix
apply_prefix-IsNamespaced name prefix policy = ground (
  arith,
  starts_with-append (prefix <> "_") name,
  eq_iff policy "skip",
  eq_iff policy "append",
  append_no_skip policy,
  eq_iff prefix "",
)
