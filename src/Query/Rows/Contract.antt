-- ===== src/Query/Rows/Contract.antt =====
-- The `value` contract of `build_rows` in src/promch/handlers/query_status.py.
use mathlib.Core.Option
use prometheus_ch_exporter.Prelude.{
  String, ◌≡◌, refl, ◌∙◌, Bool, true, false, not, ◌||◌, none, some, List, [], ◌∷◌, ◌==◌, arith,
  if◌then◌else◌, any_of, is_some, inl, inr, Option-cases, subst,
}
use prometheus_ch_exporter.Prelude.Result.{Result, ok, err, is_err, ◌>>=◌, >>=-eq-ok, ok-injective}
use prometheus_ch_exporter.Dict.{get, remove, has}
use prometheus_ch_exporter.Dict.Laws.{get-remove}
use prometheus_ch_exporter.Collector.{QueryResult}
use prometheus_ch_exporter.Cells.{Cell, Row, Objects, str_cell}
use prometheus_ch_exporter.Query.Rows.{texts, convert, build_row, build_rows}

module _ (py : Objects) where
  -- The row breaks the contract.
  abbrev pub is_bad : Row → Bool
  is_bad row =
      has row "query_key"
      || elim (get row "value") [ none ↦ true | some cell ↦ not (is_some (py.to_float cell)) ]

  -- The result is what the row says: its value as a number, and each other column as a text.
  pub record IsReading (row : Row) (result : QueryResult) : Type 0 where
    pub cell : Cell
    pub has_value : get row "value" ≡ some cell
    pub value : py.to_float cell ≡ some result.value
    pub not_reserved : has row "query_key" ≡ false
    pub labels :
        (k : String)
        → get result.dynamic_labels k
          ≡ (if "value" == k then none else Option.map (str_cell py) (get row k))

  abbrev pub AllReadings : List Row → List QueryResult → Type 0
  AllReadings [] [] = Unit
  AllReadings (row ∷ rows) (result ∷ results) = IsReading row result × AllReadings rows results
  AllReadings _ _ = ⊥

  get-texts : (row : Row) (k : String) → get (texts py row) k ≡ Option.map (str_cell py) (get row k)
  unfolding get
  get-texts [] k = refl
  get-texts ((j, c) ∷ row) k = ground (arith, get-texts row k)

  build_row-IsReading :
      (row : Row) (result : QueryResult) → build_row py row ≡ ok result → IsReading row result
  unfolding build_row convert
  build_row-IsReading row result h = elim (Option-cases (get row "value")) [
    | inl missing ↦ ground arith
    | inr (c, here) ↦ record {
      cell = c;
      has_value = here;
      value = ground arith;
      not_reserved = ground arith;
      labels = λ k.
          let converted : result.dynamic_labels ≡ texts py (remove row "value") = ground arith in
          rw converted
            (get-texts (remove row "value") k ∙ ground (arith, get-remove row "value" k));
    }
  ]

  is_err-build_row : (row : Row) → is_err (build_row py row) ≡ is_bad row
  unfolding build_row convert
  is_err-build_row row = ground arith

  is_err-bind {ℓ} :
      {E A B : Type ℓ} (m : Result E A) (f : A → B) → is_err (m >>= λ a. ok (f a)) ≡ is_err m
  is_err-bind (ok a) f = refl
  is_err-bind (err e) f = refl

  -- `build_rows` raises exactly if some row has the column `query_key`, has no column `value`, or
  -- has a value that is no number.
  pub is_err-build_rows : (raws : List Row) → is_err (build_rows py raws) ≡ any_of is_bad raws
  unfolding build_rows
  is_err-build_rows [] = refl
  is_err-build_rows (raw ∷ raws) = ground (arith, is_err-build_row raw, is_err-build_rows raws)

  -- The results, if it returns, are those of the rows, one for each row and in their order.
  pub build_rows-AllReadings :
      (raws : List Row) (results : List QueryResult)
      → build_rows py raws ≡ ok results
      → AllReadings raws results
  unfolding build_rows
  build_rows-AllReadings [] [] h = tt
  build_rows-AllReadings [] (result ∷ results) h = cc
  build_rows-AllReadings (raw ∷ raws) results h =
      let (first, one, rest) = >>=-eq-ok (build_row py raw) _ h in
      let (others, more, all) = >>=-eq-ok (build_rows py raws) _ rest in
      subst (AllReadings (raw ∷ raws)) (ok-injective all)
        (build_row-IsReading raw first one, build_rows-AllReadings raws others more)
