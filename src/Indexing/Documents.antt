-- ===== src/Indexing/Documents.antt =====
-- talap/indexing/documents.py: the text that is embedded for a product.
pub mod Lines
use talap_ml.Common.{ℕ, ◌&&◌, Option, none, some, [], ◌∷◌, ◌++◌, ◌==◌, if◌then◌else◌}
use talap_ml.Common.Text.{Text, text, strip}

abbrev pub line_feed : ℕ
line_feed = 10

abbrev pub carriage_return : ℕ
carriage_return = 13

-- `s.replace("\r\n", "\n")`
unfoldable pub replace_crlf : Text → Text
replace_crlf [] = []
replace_crlf (c ∷ []) = c ∷ []
replace_crlf (c ∷ d ∷ s) =
    let short = line_feed ∷ replace_crlf s in
    let long = c ∷ replace_crlf (d ∷ s) in
    if c == carriage_return && d == line_feed then short else long

-- `s.replace("\r", "\n")`
unfoldable pub replace_cr : Text → Text
replace_cr [] = []
replace_cr (c ∷ s) = (if c == carriage_return then line_feed else c) ∷ replace_cr s

-- `value or ""`
abbrev pub or_blank : Option Text → Text
or_blank none = []
or_blank (some s) = s

-- the document before its line ends are normalized
unfoldable pub labelled_lines : Text → Text → Text → Option Text → Text
labelled_lines name category description material =
    text "Name: "
    ++ strip name
    ++ text "\nCategory: "
    ++ strip category
    ++ text "\nDescription: "
    ++ strip description
    ++ text "\nMaterial: "
    ++ strip (or_blank material)

unfoldable pub build_product_index_text : Text → Text → Text → Option Text → Text
build_product_index_text name category description material =
    replace_cr (replace_crlf (labelled_lines name category description material))
