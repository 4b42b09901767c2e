-- ===== src/Catalog/Importer/Validation.antt =====
-- Which rows `_validate_rows` of talap/catalog/importer.py accepts.
use talap_ml.Common.{
  ℕ, ◌+◌, ◌≡◌, refl, ◌↔◌, Bool, true, false, not, List, [], ◌∷◌, ◌++◌, arith, if◌then◌else◌, All,
}
use talap_ml.Common.Text.{Text, text_eq, text_eq_iff, is_empty}
use talap_ml.Common.Upsert.{HasDistinctKeys, IsFresh}
use talap_ml.Catalog.Rows.{CatalogRow, RowError}
use talap_ml.Catalog.Mutation.{mem_text}
use talap_ml.Catalog.Mutation.Ids.{sku}
use talap_ml.Catalog.Importer.{validate_rows, validate_rows_from, slug_error, sku_error}

-- All rows are the merchant's, and no two have one SKU.
abbrev pub IsValidFile : List CatalogRow → Text → Type 0
IsValidFile rows merchant_slug =
    All (λ row. row.merchant_slug ≡ merchant_slug) rows × HasDistinctKeys sku text_eq rows

-- No row has a SKU that was seen.
abbrev IsUnseen : List Text → List CatalogRow → Type 0
IsUnseen seen rows = All (λ row. mem_text row.merchant_sku seen ≡ false) rows

module _ (k : Text) (seen : List Text) where
  IsUnseen-of_both :
      (rows : List CatalogRow)
      → IsFresh sku text_eq k rows
      → IsUnseen seen rows
      → IsUnseen (k ∷ seen) rows
  IsUnseen-of_both [] f u = tt
  IsUnseen-of_both (r ∷ rows) f u = (ground (arith, f.0, u.0), IsUnseen-of_both rows f.1 u.1)

  both_of_IsUnseen :
      (rows : List CatalogRow)
      → IsUnseen (k ∷ seen) rows
      → IsFresh sku text_eq k rows × IsUnseen seen rows
  both_of_IsUnseen [] u = (tt, tt)
  both_of_IsUnseen (r ∷ rows) u =
      let (f, v) = both_of_IsUnseen rows u.1 in ((ground (arith, u.0), f), (ground (arith, u.0), v))

no_errors :
    (mismatch duplicate : Bool) (a b : RowError) (errors : List RowError)
    → is_empty ((if mismatch then a ∷ [] else []) ++ (if duplicate then b ∷ [] else []) ++ errors)
      ≡ true
    → (mismatch ≡ false) × (duplicate ≡ false) × (is_empty errors ≡ true)
no_errors true d a b errors h = cc
no_errors false true a b errors h = cc
no_errors false false a b errors h = (refl, refl, h)

sound :
    (seen : List Text) (n : ℕ) (rows : List CatalogRow) (slug : Text)
    → is_empty (validate_rows_from seen n rows slug).0 ≡ true
    → IsValidFile rows slug × IsUnseen seen rows
unfolding validate_rows_from
sound seen n [] slug h = ((tt, tt), tt)
sound seen n (r ∷ rows) slug h =
    let (m, d, e) =
      no_errors (not (text_eq r.merchant_slug slug)) (mem_text r.merchant_sku seen) (slug_error n r)
        (sku_error n r) (validate_rows_from (r.merchant_sku ∷ seen) (n + 1) rows slug).0 h in
    let (valid, unseen) = sound (r.merchant_sku ∷ seen) (n + 1) rows slug e in
    let (fresh, others) = both_of_IsUnseen r.merchant_sku seen rows unseen in
    (
      (((text_eq_iff r.merchant_slug slug).0 (ground (arith, m)), valid.0), (fresh, valid.1)),
      (d, others),
    )

complete :
    (seen : List Text) (n : ℕ) (rows : List CatalogRow) (slug : Text)
    → IsValidFile rows slug
    → IsUnseen seen rows
    → is_empty (validate_rows_from seen n rows slug).0 ≡ true
unfolding validate_rows_from
complete seen n [] slug v u = refl
complete seen n (r ∷ rows) slug v u =
    let same = (text_eq_iff r.merchant_slug slug).1 v.0.0 in
    rw (same, u.0)
      (complete (r.merchant_sku ∷ seen) (n + 1) rows slug (v.0.1, v.1.1)
        (IsUnseen-of_both r.merchant_sku seen rows v.1.0 u.1))

IsUnseen-of_none : (rows : List CatalogRow) → IsUnseen [] rows
IsUnseen-of_none [] = tt
IsUnseen-of_none (r ∷ rows) = (refl, IsUnseen-of_none rows)

-- The validation finds no error exactly where every row has the slug of the merchant and no two
-- rows have one SKU.
pub validate_rows_iff :
    (rows : List CatalogRow) (merchant_slug : Text)
    → (is_empty (validate_rows rows merchant_slug).0 ≡ true) ↔ IsValidFile rows merchant_slug
validate_rows_iff rows slug =
    ((λ h. (sound [] 2 rows slug h).0), (λ v. complete [] 2 rows slug v (IsUnseen-of_none rows)))
