-- ===== src/Config/Validators.antt =====
-- What the validated settings of src/promch/config.py guarantee to the code that uses them.
use Prim.Native.Char.{code}
use prometheus_ch_exporter.Prelude.{
  String, ◌≡◌, refl, ◌≢◌, ◌⊎◌, inl, inr, Bool, true, false, not, ◌&&◌, ◌||◌, ◌==◌, eq_iff, arith,
  nat_eq, if◌then◌else◌, Bool-cases,
}
use prometheus_ch_exporter.Prelude.Result.{ok, is_err}
use prometheus_ch_exporter.Prelude.Text.{rstrip}
use prometheus_ch_exporter.Config.{
  OperatorConfig, is_name, is_name_start, all_name_chars, is_name_char, validate_metric_prefix,
  validate_node_label, metric_prefix_normalized,
}

-- The last character of the text is an underscore.
abbrev pub ends_in_underscore : String → Bool
ends_in_underscore String.[] = false
ends_in_underscore (String.◌∷◌ c s) = if s == "" then nat_eq (code c) b'_' else ends_in_underscore s

rstrip-ends : (s : String) → ends_in_underscore (rstrip b'_' s) ≡ false
unfolding rstrip
rstrip-ends String.[] = refl
rstrip-ends (String.◌∷◌ c s) = elim (Bool-cases (nat_eq (code c) b'_' && (rstrip b'_' s == ""))) [
  | inl cut ↦ rw cut
  | inr kept ↦ rw kept (ground (arith, rstrip-ends s))
]

and_true : (a b : Bool) → (a && b) ≡ true → (a ≡ true) × (b ≡ true)
and_true a b h = ground arith

all_name_chars-rstrip :
    (s : String) → all_name_chars s ≡ true → all_name_chars (rstrip b'_' s) ≡ true
unfolding rstrip all_name_chars
all_name_chars-rstrip String.[] h = refl
all_name_chars-rstrip (String.◌∷◌ c s) h =
    elim (Bool-cases (nat_eq (code c) b'_' && (rstrip b'_' s == ""))) [
      | inl cut ↦ rw cut
      | inr kept ↦
          let (first, rest) = and_true (is_name_char c) (all_name_chars s) h in
          rw (kept, first, all_name_chars-rstrip s rest)
    ]

is_name-rstrip :
    (s : String) → is_name s ≡ true → (rstrip b'_' s ≡ "") ⊎ (is_name (rstrip b'_' s) ≡ true)
unfolding rstrip is_name
is_name-rstrip String.[] h = inl refl
is_name-rstrip (String.◌∷◌ c s) h =
    elim (Bool-cases (nat_eq (code c) b'_' && (rstrip b'_' s == ""))) [
      | inl cut ↦ inl (rw cut)
      | inr kept ↦
          let (first, rest) = and_true (is_name_start c) (all_name_chars s) h in
          inr (rw (kept, first, all_name_chars-rstrip s rest))
    ]

-- Under an accepted `metric_prefix` the prefix in use never ends in an underscore, so that exactly
-- one joins it to a name; and it is empty or a valid metric name.
pub metric_prefix-IsSound :
    (c : OperatorConfig) (v : String)
    → validate_metric_prefix c.metric_prefix ≡ ok v
    → (ends_in_underscore (metric_prefix_normalized c) ≡ false)
      × ((metric_prefix_normalized c ≡ "") ⊎ (is_name (metric_prefix_normalized c) ≡ true))
unfolding validate_metric_prefix metric_prefix_normalized
metric_prefix-IsSound c v h = elim (Bool-cases (is_name c.metric_prefix)) [
  | inl name ↦ (rstrip-ends c.metric_prefix, is_name-rstrip c.metric_prefix name)
  | inr other ↦ (
    rstrip-ends c.metric_prefix,
    let empty : c.metric_prefix ≡ "" = ground (arith, eq_iff c.metric_prefix "") in inl (rw empty),
  )
]

-- A node label is accepted exactly if it is a valid label name other than `query_key`, and comes
-- back as it was.
pub validate_node_label-exact :
    (v : String)
    → (is_err (validate_node_label v) ≡ (not (is_name v) || (v == "query_key")))
      × ((w : String) → validate_node_label v ≡ ok w → (w ≡ v) × (v ≢ "query_key"))
unfolding validate_node_label
validate_node_label-exact v =
    (ground arith, λ w h. (ground arith, λ e. ground (arith, eq_iff v "query_key")))
