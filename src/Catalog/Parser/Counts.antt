-- ===== src/Catalog/Parser/Counts.antt =====
-- The counters of a parsed file of talap/catalog/parser.py.
use talap_ml.Common.{
  ℕ, ◌+◌, ◌≡◌, refl, inl, inr, Option, none, some, List, [], ◌∷◌, ltb, length, arith, Result-cases,
  Bool-cases, Option-cases,
}
use talap_ml.Common.Text.{Text, is_empty, strip}
use talap_ml.Catalog.Rows.{ParseResult}
use talap_ml.Catalog.Parser.Cells.{normalize_row}
use talap_ml.Catalog.Parser.{
  CsvFile, header_raises, csv_file, Readers, normalize_headers, parse_rows, parse_file,
  parse_catalog_csv,
}

-- `CatalogParseResult._check_invariants`
abbrev pub IsConsistent : ParseResult → Type 0
IsConsistent r = (r.valid_rows ≡ length r.rows) × (r.total_rows ≡ r.valid_rows + r.invalid_rows)

abbrev pub IsConsistentAnswer : Option ParseResult → Type 0
IsConsistentAnswer none = Unit
IsConsistentAnswer (some r) = IsConsistent r

module _ (readers : Readers) where
  -- Every row that was read is counted once, as valid or as invalid.
  parse_rows_counts :
      (headers : List Text) (n : ℕ) (rows : List (List Text))
      → let r = parse_rows readers headers n rows in IsConsistent r × (r.total_rows ≡ length rows)
  unfolding parse_rows
  parse_rows_counts headers n [] = ((refl, refl), refl)
  parse_rows_counts headers n (cells ∷ rows) =
      let ((valid, total), all) = parse_rows_counts headers (n + 1) rows in
      elim (Bool-cases (ltb (length headers) (length cells))) [
        | inl e ↦ rw (e, parse_rows) ((valid, omega (arith, total)), omega (arith, all))
        | inr e ↦
            elim (Result-cases
              (readers.model_validate (normalize_row readers.conversions headers cells))) [
                | inl (row, f) ↦
                    rw (e, parse_rows, f)
                      ((omega (arith, valid), omega (arith, total)), omega (arith, all))
                | inr (errors, f) ↦
                    rw (e, parse_rows, f) ((valid, omega (arith, total)), omega (arith, all))
              ]
      ]

  parse_file-IsConsistent : (file : CsvFile) → IsConsistentAnswer (parse_file readers file)
  unfolding parse_file
  parse_file-IsConsistent header_raises = tt
  parse_file-IsConsistent (csv_file names rows failure) =
      elim (Result-cases (normalize_headers names)) [
        | inr (x, e) ↦ rw (e, parse_file) (refl, refl)
        | inl (headers, e) ↦ elim (Option-cases failure) [
          | inl f ↦ rw (e, parse_file, f) (parse_rows_counts headers 2 rows).0
          | inr (message, f) ↦ rw (e, parse_file, f) (refl, refl)
        ]
      ]

  -- A parsed file counts its rows as valid, and its total is that of valid and invalid rows, so
  -- that the result passes its own validation.
  pub parse_catalog_csv-IsConsistent :
      (content : List ℕ) → IsConsistentAnswer (parse_catalog_csv readers content)
  unfolding parse_catalog_csv
  parse_catalog_csv-IsConsistent content = elim (Option-cases (readers.decode content)) [
    | inl e ↦ rw (e, parse_catalog_csv) (refl, refl)
    | inr (decoded, e) ↦ elim (Bool-cases (is_empty (strip decoded))) [
      | inl f ↦ rw (e, parse_catalog_csv, f) (refl, refl)
      | inr f ↦ rw (e, parse_catalog_csv, f) (parse_file-IsConsistent (readers.read_csv decoded))
    ]
  ]
