-- ===== src/Catalog/Mutation/Ids.antt =====
-- The dictionaries from SKUs to ids of talap/catalog/importer.py, and the keys that a file proposes.
use talap_ml.Common.{
  ℕ, ◌+◌, ◌≡◌, refl, sym, ap, ◌∙◌, ◌↔◌, inl, inr, true, false, Option, some, List, [], ◌∷◌, arith,
  ok, >>=-eq-ok, ok-subst, Bool-cases, Option-cases, All, All-weaken, any,
}
use talap_ml.Common.Text.{Text, text_eq, text_eq_iff}
use talap_ml.Common.Table.{Uuid}
use talap_ml.Common.Upsert.{HasDistinctKeys, IsFresh}
use talap_ml.Catalog.Rows.{
  CatalogRow, Product, ProductVariant, MerchantKey, merchant_key_eq, product_key, variant_key,
}
use talap_ml.Catalog.Mutation.{
  NewIds, Ids, get_id, returned_ids, product_row, product_rows, variant_row, variant_rows,
}

abbrev pub sku : CatalogRow → Text
sku row = row.merchant_sku

pub merchant_key_eq_iff : (a b : MerchantKey) → (merchant_key_eq a b ≡ true) ↔ (a ≡ b)
merchant_key_eq_iff a b = ground (arith, text_eq_iff a.1 b.1)

-- A row is one of the rows.
abbrev IsIn : Text → List CatalogRow → Type 0
IsIn k rows = any (λ row. text_eq row.merchant_sku k) rows ≡ true

All-IsIn : (rows : List CatalogRow) → All (λ row. IsIn row.merchant_sku rows) rows
All-IsIn [] = tt
All-IsIn (r ∷ rows) =
    let same = (text_eq_iff r.merchant_sku r.merchant_sku).1 refl in
    (
      rw same refl,
      All-weaken (λ x. IsIn x.merchant_sku rows) (λ x. IsIn x.merchant_sku (r ∷ rows))
          (λ x h. ground (arith, h)) rows (All-IsIn rows),
    )

module _ {A : Type 0} (find : MerchantKey → Option A) (id : A → Uuid) (merchant_id : Uuid) where
  get_id-of-IsIn :
      (k : Text) (x : A) (rows : List CatalogRow)
      → find (merchant_id, k) ≡ some x
      → IsIn k rows
      → get_id k (returned_ids find id merchant_id rows) ≡ ok (id x)
  unfolding get_id returned_ids
  get_id-of-IsIn k x [] found h = cc
  get_id-of-IsIn k x (r ∷ rows) found h = elim (Bool-cases (text_eq r.merchant_sku k)) [
    | inl e ↦
        let here : find (merchant_id, r.merchant_sku) ≡ some x =
          ap (λ t. find (merchant_id, t)) ((text_eq_iff r.merchant_sku k).0 e) ∙ found in
        rw (here, returned_ids, e) refl
    | inr e ↦
        let later = get_id-of-IsIn k x rows found (ground (arith, e, h)) in
        elim (Option-cases (find (merchant_id, r.merchant_sku))) [
          | inl f ↦ rw (f, returned_ids) later
          | inr (y, f) ↦ rw (f, returned_ids, e) later
        ]
  ]

  -- The dictionary has the id of every row that the table has.
  pub get_id-returned_ids :
      (rows : List CatalogRow)
      → All
          (λ row.
            (x : A)
            → find (merchant_id, row.merchant_sku) ≡ some x
            → get_id row.merchant_sku (returned_ids find id merchant_id rows) ≡ ok (id x))
          rows
  get_id-returned_ids rows =
      All-weaken (λ row. IsIn row.merchant_sku rows)
        (λ row.
          (x : A)
          → find (merchant_id, row.merchant_sku) ≡ some x
          → get_id row.merchant_sku (returned_ids find id merchant_id rows) ≡ ok (id x))
        (λ row h x found. get_id-of-IsIn row.merchant_sku x rows found h) rows (All-IsIn rows)

-- Rows of one merchant with different SKUs have different keys.
pub merchant_key_eq-fresh :
    (m : Uuid) (a b : Text) → text_eq a b ≡ false → merchant_key_eq (m, a) (m, b) ≡ false
merchant_key_eq-fresh m a b h = ground (arith, h)

module _ (ids : NewIds) (m : Uuid) where
  product_rows-IsFresh :
      (k : Text) (i : ℕ) (rows : List CatalogRow)
      → IsFresh sku text_eq k rows
      → IsFresh product_key merchant_key_eq (m, k) (product_rows ids m i rows)
  unfolding product_rows
  product_rows-IsFresh k i [] h = tt
  product_rows-IsFresh k i (r ∷ rows) h =
      (merchant_key_eq-fresh m r.merchant_sku k h.0, product_rows-IsFresh k (i + 1) rows h.1)

  pub product_rows-HasDistinctKeys :
      (i : ℕ) (rows : List CatalogRow)
      → HasDistinctKeys sku text_eq rows
      → HasDistinctKeys product_key merchant_key_eq (product_rows ids m i rows)
  unfolding product_rows
  product_rows-HasDistinctKeys i [] h = tt
  product_rows-HasDistinctKeys i (r ∷ rows) h = (
    product_rows-IsFresh r.merchant_sku (i + 1) rows h.0,
    product_rows-HasDistinctKeys (i + 1) rows h.1,
  )

  pub All-of_product_rows :
      (P : Product → Type 0) (i : ℕ) (rows : List CatalogRow)
      → All P (product_rows ids m i rows)
      → All (λ row. (j : ℕ) × P (product_row ids m j row)) rows
  unfolding product_rows
  All-of_product_rows P i [] h = tt
  All-of_product_rows P i (r ∷ rows) h = ((i, h.0), All-of_product_rows P (i + 1) rows h.1)

  module _ (product_ids : Ids) where
    -- The proposed variants: each row's, with the id of its product.
    variant_rows-IsFresh :
        (k : Text) (i : ℕ) (rows : List CatalogRow) (vs : List ProductVariant)
        → variant_rows ids m product_ids i rows ≡ ok vs
        → IsFresh sku text_eq k rows
        → IsFresh variant_key merchant_key_eq (m, k) vs
    unfolding variant_rows
    variant_rows-IsFresh k i [] vs e h = ok-subst (IsFresh variant_key merchant_key_eq (m, k)) e tt
    variant_rows-IsFresh k i (r ∷ rows) vs e h =
        let (p, ep, e1) = >>=-eq-ok (get_id r.merchant_sku product_ids) _ e in
        let (rest, er, e2) = >>=-eq-ok (variant_rows ids m product_ids (i + 1) rows) _ e1 in
        ok-subst (IsFresh variant_key merchant_key_eq (m, k)) e2 (
          merchant_key_eq-fresh m r.merchant_sku k h.0,
          variant_rows-IsFresh k (i + 1) rows rest er h.1,
        )

    pub variant_rows-HasDistinctKeys :
        (i : ℕ) (rows : List CatalogRow) (vs : List ProductVariant)
        → variant_rows ids m product_ids i rows ≡ ok vs
        → HasDistinctKeys sku text_eq rows
        → HasDistinctKeys variant_key merchant_key_eq vs
    unfolding variant_rows
    variant_rows-HasDistinctKeys i [] vs e h =
        ok-subst (HasDistinctKeys variant_key merchant_key_eq) e tt
    variant_rows-HasDistinctKeys i (r ∷ rows) vs e h =
        let (p, ep, e1) = >>=-eq-ok (get_id r.merchant_sku product_ids) _ e in
        let (rest, er, e2) = >>=-eq-ok (variant_rows ids m product_ids (i + 1) rows) _ e1 in
        ok-subst (HasDistinctKeys variant_key merchant_key_eq) e2 (
          variant_rows-IsFresh r.merchant_sku (i + 1) rows rest er h.0,
          variant_rows-HasDistinctKeys (i + 1) rows rest er h.1,
        )

    pub All-of_variant_rows :
        (P : ProductVariant → Type 0) (i : ℕ) (rows : List CatalogRow) (vs : List ProductVariant)
        → variant_rows ids m product_ids i rows ≡ ok vs
        → All P vs
        → All
            (λ row.
              (j : ℕ) × (p : Uuid) × (get_id row.merchant_sku product_ids ≡ ok p)
              × P (variant_row ids m j p row))
            rows
    unfolding variant_rows
    All-of_variant_rows P i [] vs e h = tt
    All-of_variant_rows P i (r ∷ rows) vs e h =
        let (p, ep, e1) = >>=-eq-ok (get_id r.merchant_sku product_ids) _ e in
        let (rest, er, e2) = >>=-eq-ok (variant_rows ids m product_ids (i + 1) rows) _ e1 in
        let all = ok-subst (All P) (sym e2) h in
        ((i, p, ep, all.0), All-of_variant_rows P (i + 1) rows rest er all.1)
