-- ===== src/Tests/Settings.antt =====
-- Durations and settings (src/promch/utils.py and config.py).
use prometheus_ch_exporter.Prelude.{◌≡◌, refl, ◌↔◌, false}
use prometheus_ch_exporter.Prelude.Result.{ok}
use prometheus_ch_exporter.Duration.{parse_duration_seconds}
use prometheus_ch_exporter.Duration.Format.{IsDigitsAndUnit, parse_duration_iff}
use prometheus_ch_exporter.Config.{validate_log_level}

parse_duration_iff_example :
    (parse_duration_seconds "05m" ≡ ok 300) ↔ IsDigitsAndUnit false 0 "05m" 300
parse_duration_iff_example = parse_duration_iff "05m" 300

five_minutes : parse_duration_seconds "05m" ≡ ok 300
unfolding parse_duration_seconds
five_minutes = refl

debug_level : validate_log_level " debug\n" ≡ ok "DEBUG"
unfolding validate_log_level
debug_level = refl
