-- ===== src/Query/Rows.antt =====
-- `build_rows` of src/promch/handlers/query_status.py: from raw rows to results.
pub mod Contract
use prometheus_ch_exporter.Prelude.{
  ℕ, String, ◌<>◌, ◌≡◌, refl, Bool, true, false, Option, none, some, List, [], ◌∷◌, ◌++◌, map,
  if◌then◌else◌,
}
use prometheus_ch_exporter.Prelude.Result.{Result, ok, err, ◌>>=◌}
use prometheus_ch_exporter.Prelude.Text.{repr, repr_list}
use prometheus_ch_exporter.Dict.{Dict, get, remove, keys, has}
use prometheus_ch_exporter.Collector.{Float, QueryResult}
use prometheus_ch_exporter.Cells.{Cell, text, object, Row, Objects, str_cell}

module _ (py : Objects) where
  -- `repr(x)` of a cell
  repr_cell : Cell → String
  unfolding repr
  repr_cell (text s) = repr s
  repr_cell (object n) = py.repr_object n

  -- The ValueError for a row with a value that is no number.
  pub not_numeric : Cell → String
  unfolding repr_cell
  not_numeric c = "'value' is not numeric: " <> repr_cell c

  unfoldable pub missing_value : Row → String
  unfolding repr_list
  missing_value row = "query result row missing 'value' column: " <> repr_list (keys row)

  abbrev pub reserved_column : String
  reserved_column =
      "query result uses reserved column 'query_key' (added by the exporter to identify the resource)"

  abbrev pub texts : Row → Dict String
  texts = map λ e. (e.0, str_cell py e.1)

  -- The conversion of the value, once the row has one.
  unfoldable pub convert : Row → Cell → Result String QueryResult
  unfolding not_numeric
  convert row cell = elim (py.to_float cell) [
    | none ↦ err (not_numeric cell)
    | some number ↦ ok (record { value = number; dynamic_labels = texts (remove row "value") })
  ]

  -- The body of the loop.
  unfoldable pub build_row : Row → Result String QueryResult
  unfolding convert missing_value
  build_row row =
      if has row "query_key"
      then err reserved_column
      else elim (get row "value") [ none ↦ err (missing_value row) | some cell ↦ convert row cell ]

  -- The loop ends at the first row that raises.
  unfoldable pub build_rows : List Row → Result String (List QueryResult)
  unfolding build_row
  build_rows [] = ok []
  build_rows (raw ∷ raws) = do
    result ← build_row raw
    results ← build_rows raws
    ok (result ∷ results)
