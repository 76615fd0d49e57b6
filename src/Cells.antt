-- ===== src/Cells.antt =====
-- The values in the rows that the ClickHouse driver returns (`Row` of src/promch/clickhouse/types.py).
use prometheus_ch_exporter.Prelude.{ℕ, String, Bool, false, Option, ◌==◌}
use prometheus_ch_exporter.Dict.{Dict}
use prometheus_ch_exporter.Collector.{Float}

-- A text, or any other Python object by its identity.
pub data Cell : Type 0 where
  text : String → Cell
  object : ℕ → Cell

abbrev pub Row : Type 0
Row = Dict Cell

-- What the driver's objects answer to `float(x)`, where None is a TypeError or a ValueError, and to
-- `str(x)` and `repr(x)`.
pub record Objects : Type 0 where
  pub to_float : Cell → Option Float
  pub str_object : ℕ → String
  pub repr_object : ℕ → String

-- `str(x)`
abbrev pub str_cell : Objects → Cell → String
str_cell py (text s) = s
str_cell py (object n) = py.str_object n

-- `x == s` for a text `s`: no other object of the driver is equal to a text.
abbrev pub equals_text : Cell → String → Bool
equals_text (text t) s = t == s
equals_text (object n) s = false
