-- ===== src/Config.antt =====
-- src/promch/config.py: the operator's settings and their validators, on ASCII texts. What
-- pydantic-settings does, to read the environment and to run the validators, is not modelled.
pub mod Validators
pub mod LogLevel
use Prim.Native.Char.{Char, code}
use prometheus_ch_exporter.Prelude.{
  ℕ, ◌+◌, ◌-◌, ◌*◌, String, ◌<>◌, ◌≡◌, refl, Bool, true, false, not, ◌&&◌, ◌||◌, Option, none, some,
  List, [], ◌∷◌, map, ◌==◌, leb, nat_eq, if◌then◌else◌, contains, text_truthy,
}
use prometheus_ch_exporter.Prelude.Result.{Result, ok, err, ◌>>=◌}
use prometheus_ch_exporter.Prelude.Text.{codes, strip, repr, rstrip, join}
use prometheus_ch_exporter.Duration.{parse_duration_seconds}

-- The fields that the modelled code reads; `peering_lifetime` is a float, in microseconds.
pub record OperatorConfig : Type 0 where
  pub default_interval : String
  pub default_timeout : String
  pub default_max_concurrent : ℕ
  pub status_interval : String
  pub last_error_ttl : String
  pub expire_after_failures : ℕ
  pub peering_enabled : Bool
  pub peering_name : String
  pub peering_lifetime : ℕ
  pub log_level : String
  pub metric_prefix : String
  pub node_label : String

abbrev pub defaults : OperatorConfig
defaults = record {
  default_interval = "60s";
  default_timeout = "30s";
  default_max_concurrent = 2;
  status_interval = "15s";
  last_error_ttl = "10m";
  expire_after_failures = 5;
  peering_enabled = false;
  peering_name = "prometheus-ch-exporter";
  peering_lifetime = 60000000;
  log_level = "INFO";
  metric_prefix = "clickhouse";
  node_label = "clickhouse_node";
}

unfoldable pub validate_duration : String → Result String String
validate_duration v = parse_duration_seconds v >>= λ _. ok v

abbrev is_between : Char → ℕ → ℕ → Bool
is_between c lo hi = leb lo (code c) && leb (code c) hi

-- `[a-zA-Z_]` and `[a-zA-Z0-9_]`
abbrev pub is_name_start : Char → Bool
is_name_start c = is_between c b'a' b'z' || is_between c b'A' b'Z' || nat_eq (code c) b'_'

abbrev pub is_name_char : Char → Bool
is_name_char c = is_name_start c || is_between c b'0' b'9'

unfoldable pub all_name_chars : String → Bool
all_name_chars String.[] = true
all_name_chars (String.◌∷◌ c s) = is_name_char c && all_name_chars s

-- `re.fullmatch(r"[a-zA-Z_][a-zA-Z0-9_]*", v)`
unfoldable pub is_name : String → Bool
unfolding all_name_chars
is_name String.[] = false
is_name (String.◌∷◌ c s) = is_name_start c && all_name_chars s

unfoldable pub validate_metric_prefix : String → Result String String
unfolding is_name repr
validate_metric_prefix v =
    if text_truthy v && not (is_name v)
    then err ("metric_prefix " <> (repr v <> " must be empty or match [a-zA-Z_][a-zA-Z0-9_]*"))
    else ok v

unfoldable pub validate_node_label : String → Result String String
unfolding is_name repr
validate_node_label v =
    if not (is_name v)
    then err ("node_label " <> (repr v <> " is not a valid Prometheus label name"))
    else if v == "query_key"
    then err "node_label must not be the reserved label 'query_key'"
    else ok v

module _ (c : OperatorConfig) where
  unfoldable pub default_interval_seconds : Result String ℕ
  default_interval_seconds = parse_duration_seconds c.default_interval

  unfoldable pub default_timeout_seconds : Result String ℕ
  default_timeout_seconds = parse_duration_seconds c.default_timeout

  unfoldable pub status_interval_seconds : Result String ℕ
  status_interval_seconds = parse_duration_seconds c.status_interval

  unfoldable pub last_error_ttl_seconds : Result String ℕ
  last_error_ttl_seconds = parse_duration_seconds c.last_error_ttl

  unfoldable pub metric_prefix_normalized : String
  unfolding rstrip
  metric_prefix_normalized = rstrip b'_' c.metric_prefix

-- A letter's upper case.
abbrev pub upper : ℕ → ℕ
upper c = if leb b'a' c && leb c b'z' then c - 32 else c

abbrev pub levels : List String
levels = "CRITICAL" ∷ "DEBUG" ∷ "ERROR" ∷ "INFO" ∷ "WARNING" ∷ []

abbrev pub same_codes : List ℕ → List ℕ → Bool
same_codes [] [] = true
same_codes [] (d ∷ ds) = false
same_codes (c ∷ cs) [] = false
same_codes (c ∷ cs) (d ∷ ds) = nat_eq c d && same_codes cs ds

-- The level whose characters these are.
unfoldable pub level_of : List String → List ℕ → Option String
level_of [] cs = none
level_of (level ∷ rest) cs = if same_codes (codes level) cs then some level else level_of rest cs

-- `level = v.strip().upper()`, and its membership in the allowed set.
unfoldable pub validate_log_level : String → Result String String
unfolding level_of strip repr join
validate_log_level v = elim (level_of levels (map upper (codes (strip v)))) [
  | none ↦ err ("log_level " <> (repr v <> (" must be one of " <> join ", " levels)))
  | some level ↦ ok level
]
