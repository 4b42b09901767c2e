-- ===== src/Catalog/Parser.antt =====
-- talap/catalog/parser.py: a catalog file to rows and errors. The csv module, pydantic's validation of
-- a row and the methods of Unicode texts are parameters.
pub mod Cells
pub mod Counts
use talap_ml.Common.{
  ℕ, ◌+◌, Bool, true, false, not, Option, none, some, List, [], ◌∷◌, ◌++◌, map, any, select, ltb,
  length, ◌==◌, if◌then◌else◌, Result, ok, err,
}
use talap_ml.Common.Text.{Text, text, text_eq, is_empty, strip}
use talap_ml.Common.Sorting.{order_by}
use talap_ml.Catalog.Rows.{CatalogRow, RowError, ParseResult}
use talap_ml.Catalog.Parser.Cells.{
  Cell, Conversions, normalize_row, cell_of_field, stringify_value, mem_text,
}

-- in the order of `sorted`
abbrev pub required_columns : List Text
required_columns =
    text "active"
    ∷ text "category"
    ∷ text "merchant_name"
    ∷ text "merchant_sku"
    ∷ text "merchant_slug"
    ∷ text "price_kzt"
    ∷ text "product_name"
    ∷ text "stock_quantity"
    ∷ []

abbrev pub file_error : Text → Text → RowError
file_error code message = record {
  code = code;
  message = message;
  row_number = none;
  field = none;
  value = none;
}

abbrev pub failed_file : RowError → ParseResult
failed_file e = record {
  rows = [];
  errors = e ∷ [];
  total_rows = 0;
  valid_rows = 0;
  invalid_rows = 0;
}

abbrev pub empty_file : RowError
empty_file = file_error (text "empty_file") (text "Catalog file is empty.")

abbrev pub format_error : Text → ParseResult
format_error message = failed_file (
    file_error (text "csv_format_error")
      (if is_empty message then text "Invalid CSV format." else message))

-- `a < b` of two texts
unfoldable pub text_lt : Text → Text → Bool
text_lt s [] = false
text_lt [] (d ∷ t) = true
text_lt (c ∷ s) (d ∷ t) =
    let rest = text_lt s t in if ltb c d then true else if c == d then rest else false

unfoldable pub duplicates_from : List Text → List Text → List Text → List Text
duplicates_from seen duplicates [] = duplicates
duplicates_from seen duplicates (value ∷ values) =
    let fresh = duplicates_from (value ∷ seen) duplicates values in
    let again = duplicates_from (value ∷ seen) (duplicates ++ value ∷ []) values in
    if mem_text value seen then (if mem_text value duplicates then fresh else again) else fresh

unfoldable pub find_duplicates : List Text → List Text
find_duplicates values = order_by text_lt (duplicates_from [] [] values)

-- `", ".join(values)`
unfoldable pub join_comma : List Text → Text
join_comma [] = []
join_comma (s ∷ []) = s
join_comma (s ∷ t ∷ rest) = s ++ text ", " ++ join_comma (t ∷ rest)

unfoldable pub normalize_names : List Text → Result RowError (List Text)
normalize_names fieldnames =
    let headers = map strip fieldnames in
    let duplicates = find_duplicates headers in
    let missing = select (λ column. not (mem_text column headers)) required_columns in
    if not (is_empty duplicates)
    then err (
        file_error (text "duplicate_columns") (text "Duplicate columns: " ++ join_comma duplicates))
    else if not (is_empty missing)
    then err (
        file_error (text "missing_columns")
          (text "Missing required columns: " ++ join_comma missing))
    else ok headers

unfoldable pub normalize_headers : Option (List Text) → Result RowError (List Text)
normalize_headers none = err empty_file
normalize_headers (some []) = err empty_file
normalize_headers (some (name ∷ names)) = normalize_names (name ∷ names)

-- what the csv module reads: an error in the first row, or the first row, the rows that DictReader
-- yields, and the message of an error after them
pub data CsvFile : Type 0 where
  header_raises : CsvFile
  csv_file : Option (List Text) → List (List Text) → Option Text → CsvFile

-- an error of pydantic: the field of its location, and its message
pub record FieldError : Type 0 where
  pub field : Option Text
  pub message : Text

pub record Readers : Type 0 where
  pub decode : List ℕ → Option Text
  pub read_csv : Text → CsvFile
  pub conversions : Conversions
  pub model_validate : List (Text × Cell) → Result (List FieldError) CatalogRow

abbrev pub value_of : List (Text × Cell) → Option Text → Option Text
value_of row none = none
value_of row (some name) = stringify_value (cell_of_field name row)

abbrev pub convert_validation_error : ℕ → List (Text × Cell) → FieldError → RowError
convert_validation_error row_number row e = record {
  code = text "row_validation_error";
  message = e.message;
  row_number = some row_number;
  field = e.field;
  value = value_of row e.field;
}

abbrev pub too_many_values : ℕ → RowError
too_many_values row_number = record {
  code = text "csv_format_error";
  message = text "Row contains more values than declared columns.";
  row_number = some row_number;
  field = none;
  value = none;
}

abbrev pub nothing_parsed : ParseResult
nothing_parsed = record { rows = []; errors = []; total_rows = 0; valid_rows = 0; invalid_rows = 0 }

abbrev pub add_row : CatalogRow → ParseResult → ParseResult
add_row row r = record r {
  rows = row ∷ r.rows;
  total_rows = r.total_rows + 1;
  valid_rows = r.valid_rows + 1;
}

abbrev pub add_errors : List RowError → ParseResult → ParseResult
add_errors errors r = record r {
  errors = errors ++ r.errors;
  total_rows = r.total_rows + 1;
  invalid_rows = r.invalid_rows + 1;
}

module _ (readers : Readers) where
  -- the rows from a number on
  unfoldable pub parse_rows : List Text → ℕ → List (List Text) → ParseResult
  parse_rows headers row_number [] = nothing_parsed
  parse_rows headers row_number (cells ∷ rows) =
      let rest = parse_rows headers (row_number + 1) rows in
      let normalized = normalize_row readers.conversions headers cells in
      if ltb (length headers) (length cells)
      then add_errors (too_many_values row_number ∷ []) rest
      else elim (readers.model_validate normalized) [
        | ok row ↦ add_row row rest
        | err errors ↦ add_errors (map (convert_validation_error row_number normalized) errors) rest
      ]

  unfoldable pub parse_file : CsvFile → Option ParseResult
  parse_file header_raises = none
  parse_file (csv_file fieldnames rows failure) = elim (normalize_headers fieldnames) [
    | err e ↦ some (failed_file e)
    | ok headers ↦ elim failure [
      | some message ↦ some (format_error message)
      | none ↦ some (parse_rows headers 2 rows)
    ]
  ]

  -- none is an exception
  unfoldable pub parse_catalog_csv : List ℕ → Option ParseResult
  parse_catalog_csv content = elim (readers.decode content) [
    | none ↦
        some (
          failed_file
            (file_error (text "decode_error") (text "Unable to decode catalog as UTF-8.")))
    | some decoded ↦
        if is_empty (strip decoded)
        then some (failed_file empty_file)
        else parse_file (readers.read_csv decoded)
  ]
