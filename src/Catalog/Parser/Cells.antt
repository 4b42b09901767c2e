-- ===== src/Catalog/Parser/Cells.antt =====
-- The cells of a row in talap/catalog/parser.py.
use talap_ml.Common.{
  Bool, true, false, not, Option, none, some, List, [], ◌∷◌, any, select, if◌then◌else◌, ◌==◌, ◌||◌,
}
use talap_ml.Common.Text.{Text, text, text_eq, is_empty, strip}

-- None, a text, a Boolean, and a date as its ISO text
pub data Cell : Type 0 where
  absent : Cell
  text_cell : Text → Cell
  flag : Bool → Cell
  date : Text → Cell

-- `str.lower`, and `date.fromisoformat` with `isoformat` of its result
pub record Conversions : Type 0 where
  pub lower : Text → Text
  pub iso_date : Text → Option Text

abbrev pub mem_text : Text → List Text → Bool
mem_text t ts = any (text_eq t) ts

abbrev pub integer_fields : List Text
integer_fields = text "price_kzt" ∷ text "stock_quantity" ∷ []

abbrev pub boolean_fields : List Text
boolean_fields = text "active" ∷ []

abbrev pub date_fields : List Text
date_fields = text "source_checked_at" ∷ []

abbrev pub optional_string_fields : List Text
optional_string_fields =
    text "size"
    ∷ text "color"
    ∷ text "material"
    ∷ text "image_url"
    ∷ text "source_availability"
    ∷ text "source_url"
    ∷ text "data_mode"
    ∷ []

abbrev pub lowercase_fields : List Text
lowercase_fields = text "merchant_slug" ∷ text "category" ∷ []

-- without the separators of thousands: a space and the two no-break spaces
unfoldable pub normalize_integer : Text → Text
normalize_integer s = select (λ c. not (c == 32 || c == 160 || c == 8239)) s

module _ (conversions : Conversions) where
  unfoldable pub normalize_boolean : Text → Cell
  normalize_boolean s =
      let lowered = conversions.lower s in
      if mem_text lowered (text "true" ∷ text "1" ∷ text "yes" ∷ [])
      then flag true
      else if mem_text lowered (text "false" ∷ text "0" ∷ text "no" ∷ [])
      then flag false
      else text_cell s

  unfoldable pub normalize_date : Text → Cell
  normalize_date s =
      if is_empty s
      then absent
      else elim (conversions.iso_date s) [ none ↦ text_cell s | some d ↦ date d ]

  unfoldable pub normalize_value : Text → Option Text → Cell
  normalize_value name none =
      if mem_text name optional_string_fields || mem_text name date_fields
      then absent
      else text_cell []
  normalize_value name (some value) =
      let stripped = strip value in
      if mem_text name integer_fields
      then text_cell (normalize_integer stripped)
      else if mem_text name boolean_fields
      then normalize_boolean stripped
      else if mem_text name date_fields
      then normalize_date stripped
      else if mem_text name optional_string_fields
      then (if is_empty stripped then absent else text_cell stripped)
      else if mem_text name lowercase_fields
      then text_cell (conversions.lower stripped)
      else text_cell stripped

  -- the headers with the cells that stand below them; a row that is too short has None for the rest
  unfoldable pub normalize_row : List Text → List Text → List (Text × Cell)
  normalize_row [] cells = []
  normalize_row (name ∷ names) [] = (name, normalize_value name none) ∷ normalize_row names []
  normalize_row (name ∷ names) (cell ∷ cells) =
      (name, normalize_value name (some cell)) ∷ normalize_row names cells

-- `raw_row.get(field_name)`
unfoldable pub cell_of_field : Text → List (Text × Cell) → Cell
cell_of_field name [] = absent
cell_of_field name ((n, c) ∷ row) = if text_eq n name then c else cell_of_field name row

abbrev pub stringify_value : Cell → Option Text
stringify_value absent = none
stringify_value (text_cell s) = some s
stringify_value (flag b) = some (if b then text "true" else text "false")
stringify_value (date d) = some d
