-- ===== src/Indexing/Documents/Lines.antt =====
-- The line ends and the fields of the documents of talap/indexing/documents.py.
use talap_ml.Common.{
  ℕ, ◌≡◌, refl, ap, ◌∙◌, inl, inr, Bool, true, false, ◌&&◌, Option, [], ◌∷◌, ◌++◌, any, ◌==◌, arith,
  if◌then◌else◌, Bool-cases,
}
use talap_ml.Common.Text.{Text, text, is_empty, is_space, trim_start, trim_end, trim, strip}
use talap_ml.Indexing.Documents.{
  line_feed, carriage_return, replace_crlf, replace_cr, or_blank, labelled_lines,
  build_product_index_text,
}

abbrev pub is_carriage_return : ℕ → Bool
is_carriage_return c = c == carriage_return

-- One pass over a text that ends each of its lines by a line feed: a carriage return becomes one, and
-- a line feed right after it (`after_return`) is dropped.
unfoldable pub unify_lines : Bool → Text → Text
unify_lines after_return [] = []
unify_lines after_return (c ∷ s) =
    let ended = line_feed ∷ unify_lines true s in
    let rest = unify_lines false s in
    if is_carriage_return c
    then ended
    else if after_return && c == line_feed
    then rest
    else c ∷ rest

-- The text ends in a carriage return, or is empty after one.
abbrev ends_open : Bool → Text → Bool
ends_open after_return [] = after_return
ends_open after_return (c ∷ s) = ends_open (is_carriage_return c) s

unify_lines-replaced : (s : Text) → replace_cr (replace_crlf s) ≡ unify_lines false s
unfolding replace_cr replace_crlf unify_lines
unify_lines-replaced [] = refl
unify_lines-replaced (c ∷ []) = ground arith
unify_lines-replaced (c ∷ d ∷ s) =
    ground (arith, unify_lines-replaced s, unify_lines-replaced (d ∷ s))

unify_lines-append :
    (b : Bool) (s t : Text)
    → ends_open b s ≡ false
    → unify_lines b (s ++ t) ≡ unify_lines b s ++ unify_lines false t
unfolding unify_lines
unify_lines-append b [] t h = rw h refl
unify_lines-append b (c ∷ s) t h = elim (Bool-cases (is_carriage_return c)) [
  | inl e ↦ rw e (ap (λ u. line_feed ∷ u) (unify_lines-append true s t (rw e at h)))
  | inr e ↦
      let rest = unify_lines-append false s t (rw e at h) in
      elim (Bool-cases (b && c == line_feed)) [
        | inl f ↦ rw (e, f) rest
        | inr f ↦ rw (e, f) (ap (λ u. c ∷ u) rest)
      ]
]

-- What `str.strip` leaves does not end in a carriage return.
ends_open-cons :
    (c : ℕ) (rest : Text)
    → ends_open false rest ≡ false
    → ends_open false (if is_empty rest && is_space c then [] else c ∷ rest) ≡ false
unfolding is_space
ends_open-cons c [] h = ground arith
ends_open-cons c (d ∷ rest) h = h

ends_open-trim_end : (s : Text) → ends_open false (trim_end is_space s) ≡ false
unfolding trim_end
ends_open-trim_end [] = refl
ends_open-trim_end (c ∷ s) = ends_open-cons c (trim_end is_space s) (ends_open-trim_end s)

ends_open-strip : (s : Text) → ends_open false (strip s) ≡ false
unfolding strip trim
ends_open-strip s = ends_open-trim_end (trim_start is_space s)

any-unify_lines : (b : Bool) (s : Text) → any is_carriage_return (unify_lines b s) ≡ false
unfolding unify_lines
any-unify_lines b [] = refl
any-unify_lines b (c ∷ s) = ground (arith, any-unify_lines true s, any-unify_lines false s)

-- a field in a document
abbrev pub field_lines : Text → Text
field_lines s = unify_lines false (strip s)

ends_open-append : (b : Bool) (s t : Text) → ends_open b (s ++ t) ≡ ends_open (ends_open b s) t
ends_open-append b [] t = refl
ends_open-append b (c ∷ s) t = ends_open-append (is_carriage_return c) s t

-- A label with no line end but one line feed before it.
abbrev IsLabel : Text → Type 0
IsLabel label = (ends_open false label ≡ false) × (unify_lines false label ≡ label)

-- What stands before a label, and the same with its lines unified.
record IsFront (front unified : Text) : Type 0 where
  closed : ends_open false front ≡ false
  same : unify_lines false front ≡ unified

-- A label and the field after it.
next_field :
    {front unified : Text} (label s : Text)
    → IsLabel label
    → IsFront front unified
    → IsFront (front ++ label ++ strip s) (unified ++ label ++ field_lines s)
next_field {front} label s (label_closed, label_same) before =
    let labelled : ends_open false (front ++ label) ≡ false =
      rw (ends_open-append false front label, before.closed) label_closed in
    record {
      closed = rw (ends_open-append false (front ++ label) (strip s), labelled) (ends_open-strip s);
      same =
          rw
            (
              unify_lines-append false (front ++ label) (strip s) labelled,
              unify_lines-append false front label before.closed,
              before.same,
              label_same,
            )
            refl;
    }

labels :
    IsLabel (text "Name: ")
    × IsLabel (text "\nCategory: ")
    × IsLabel (text "\nDescription: ")
    × IsLabel (text "\nMaterial: ")
unfolding unify_lines
labels = ((refl, refl), (refl, refl), (refl, refl), (refl, refl))

-- The four labels, each followed by its field.
abbrev pub unified_document : Text → Text → Text → Option Text → Text
unified_document name category description material =
    text "Name: "
    ++ field_lines name
    ++ text "\nCategory: "
    ++ field_lines category
    ++ text "\nDescription: "
    ++ field_lines description
    ++ text "\nMaterial: "
    ++ field_lines (or_blank material)

labelled_lines-unified :
    (name category description : Text) (material : Option Text)
    → unify_lines false (labelled_lines name category description material)
      ≡ unified_document name category description material
unfolding labelled_lines unify_lines
labelled_lines-unified name category description material =
    let (is_name, is_category, is_description, is_material) = labels in
    let nothing : IsFront [] [] = record { closed = refl; same = refl } in
    let after_name = next_field (text "Name: ") name is_name nothing in
    let after_category = next_field (text "\nCategory: ") category is_category after_name in
    let after_description =
      next_field (text "\nDescription: ") description is_description after_category in
    (next_field (text "\nMaterial: ") (or_blank material) is_material after_description).same

-- A document is the four labels, each followed by its stripped field in which one pass has ended
-- every line by a line feed (a carriage return becomes one, and a line feed right after it is
-- dropped); no carriage return is left. So the two replacements over the whole document never
-- join a field with the label after it.
pub build_product_index_text_lines :
    (name category description : Text) (material : Option Text)
    → let document = build_product_index_text name category description material in
      (document ≡ unified_document name category description material)
      × (any is_carriage_return document ≡ false)
unfolding build_product_index_text
build_product_index_text_lines name category description material =
    let before = labelled_lines name category description material in
    (
      unify_lines-replaced before ∙ labelled_lines-unified name category description material,
      rw (unify_lines-replaced before) (any-unify_lines false before),
    )
