-- ===== src/Catalog/Importer/Atomic.antt =====
-- An import changes the catalog as a whole or not at all.
use talap_ml.Common.{
  ℕ, ◌≡◌, refl, ◌⊎◌, inl, inr, Bool, true, false, not, Option, none, some, List, if◌then◌else◌, ok,
  err, Result-cases, Option-cases, Bool-cases,
}
use talap_ml.Common.Text.{Text, is_empty}
use talap_ml.Common.Table.{find_row}
use talap_ml.Catalog.Rows.{
  CatalogRow, ParseResult, CatalogImportSummary, CatalogDatabase, Merchant, merchant_id_of,
}
use talap_ml.Catalog.Mutation.{NewIds, run_catalog_mutation}
use talap_ml.Catalog.Importer.{
  merchant_inactive, ImportKey, Imported, Faults, validate_rows, is_valid_filename, started,
  fail_import, reject_file, mutate_catalog, import_rows, import_parsed, import_catalog_csv,
  mark_failed, mark_failed_with_safe_error, mutation_error_message, validation_error_message,
}
use talap_ml.Catalog.Importer.Validation.{IsValidFile, validate_rows_iff}

-- The catalog and its tasks are as they were.
abbrev pub IsSameCatalog : CatalogDatabase → CatalogDatabase → Type 0
IsSameCatalog db after =
    (after.products ≡ db.products)
    × (after.variants ≡ db.variants)
    × (after.inventory ≡ db.inventory)
    × (after.tasks ≡ db.tasks)

-- The rows of a valid file were stored by one mutation.
abbrev pub IsMutation : NewIds → ImportKey → List CatalogRow → CatalogDatabase → Imported → Type 0
IsMutation ids key rows db result =
    (summary : CatalogImportSummary) × (result.0 ≡ ok summary)
    × (run_catalog_mutation ids key.merchant_id key.import_id rows db ≡ ok (summary, result.1))

-- Nothing of the catalog changed, or the parsed file is free of errors, its rows are valid, and their
-- mutation gave the result.
abbrev pub IsAtomic :
    NewIds → ImportKey → Option ParseResult → Text → CatalogDatabase → Imported → Type 0
IsAtomic ids key answer slug db result =
    IsSameCatalog db result.1
    ⊎ ((parsed : ParseResult) × (answer ≡ some parsed)
        × (is_empty parsed.errors ≡ true)
        × IsValidFile parsed.rows slug
        × IsMutation ids key parsed.rows db result)

module _ (faults : Faults) (ids : NewIds) (key : ImportKey) where
  fail_import-IsSameCatalog :
      (message : Text) (db : CatalogDatabase)
      → IsSameCatalog db (fail_import faults ids key message db).1
  unfolding fail_import mark_failed_with_safe_error
  fail_import-IsSameCatalog message db = elim (Bool-cases (faults.recovery_fails db)) [
    | inl e ↦ rw (e, fail_import) (refl, refl, refl, refl)
    | inr e ↦ rw (e, fail_import) (refl, refl, refl, refl)
  ]

  mutate_catalog-IsMutation :
      (rows : List CatalogRow) (db : CatalogDatabase)
      → let result = mutate_catalog faults ids key rows db in
        IsSameCatalog db result.1 ⊎ IsMutation ids key rows db result
  unfolding mutate_catalog
  mutate_catalog-IsMutation rows db = elim (Bool-cases (faults.mutation_fails rows db)) [
    | inl e ↦ rw (e, mutate_catalog) (inl (fail_import-IsSameCatalog mutation_error_message db))
    | inr e ↦ elim (Result-cases (run_catalog_mutation ids key.merchant_id key.import_id rows db)) [
      | inr (x, f) ↦
          rw (e, mutate_catalog, f) (inl (fail_import-IsSameCatalog mutation_error_message db))
      | inl ((summary, after), f) ↦ rw (e, mutate_catalog, f) (inr (summary, refl, refl))
    ]
  ]

  import_rows-IsAtomic :
      (slug : Text) (parsed : ParseResult) (db : CatalogDatabase)
      → IsAtomic ids key (some parsed) slug db (import_rows faults ids key slug parsed db)
  unfolding import_rows reject_file mark_failed
  import_rows-IsAtomic slug parsed db = elim (Bool-cases (is_empty parsed.errors)) [
    | inr e ↦ rw (e, import_rows) (inl (refl, refl, refl, refl))
    | inl e ↦ elim (Bool-cases (is_empty (validate_rows parsed.rows slug).0)) [
      | inr f ↦ rw (e, import_rows, f) (inl (refl, refl, refl, refl))
      | inl f ↦ elim (mutate_catalog-IsMutation parsed.rows db) [
        | inl same ↦ rw (e, import_rows, f) (inl same)
        | inr mutation ↦
            rw (e, import_rows, f)
              (inr (parsed, refl, e, (validate_rows_iff parsed.rows slug).0 f, mutation))
      ]
    ]
  ]

  import_parsed-IsAtomic :
      (slug : Text) (parsed : Option ParseResult) (db : CatalogDatabase)
      → IsAtomic ids key parsed slug db (import_parsed faults ids key slug parsed db)
  unfolding import_parsed
  import_parsed-IsAtomic slug none db = inl (fail_import-IsSameCatalog validation_error_message db)
  import_parsed-IsAtomic slug (some parsed) db = import_rows-IsAtomic slug parsed db

  -- An active merchant has its file imported from the tables with the started import.
  active-IsAtomic :
      (parse : List ℕ → Option ParseResult) (filename : Text) (content : List ℕ)
      (db : CatalogDatabase) (merchant : Merchant) (active : Bool)
      → merchant.active ≡ active
      → let imported =
          import_parsed faults ids key merchant.slug
            (parse content)
            (started faults ids key filename db) in
        let result : Imported = if not active then (err merchant_inactive, db) else imported in
        IsSameCatalog db result.1
        ⊎ ((merchant.active ≡ true)
            × IsAtomic ids key
                (parse content)
                merchant.slug
                (started faults ids key filename db)
                result)
  active-IsAtomic parse filename content db merchant true e =
      inr (
        e,
        import_parsed-IsAtomic merchant.slug (parse content) (started faults ids key filename db),
      )
  active-IsAtomic parse filename content db merchant false e = inl (refl, refl, refl, refl)

  -- An import leaves products, variants, inventory and tasks as they were, or its merchant is
  -- active, its file has no error and only valid rows, and one mutation of them gave the summary
  -- and the tables.
  pub import_catalog_csv-IsAtomic :
      (parse : List ℕ → Option ParseResult) (filename : Text) (content : List ℕ)
      (db : CatalogDatabase)
      → let result = import_catalog_csv faults ids parse key filename content db in
        IsSameCatalog db result.1
        ⊎ ((merchant : Merchant) × (find_row merchant_id_of key.merchant_id db.merchants
              ≡ some merchant)
            × (merchant.active ≡ true)
            × IsAtomic ids key
                (parse content)
                merchant.slug
                (started faults ids key filename db)
                result)
  unfolding import_catalog_csv
  import_catalog_csv-IsAtomic parse filename content db =
      elim (Bool-cases (is_valid_filename filename)) [
        | inr e ↦ rw (e, import_catalog_csv) (inl (refl, refl, refl, refl))
        | inl e ↦ elim (Option-cases (find_row merchant_id_of key.merchant_id db.merchants)) [
          | inl f ↦ rw (e, import_catalog_csv, f) (inl (refl, refl, refl, refl))
          | inr (merchant, f) ↦
              elim (active-IsAtomic parse filename content db merchant merchant.active refl) [
                | inl same ↦ rw (e, import_catalog_csv, f) (inl same)
                | inr (active, atomic) ↦
                    rw (e, import_catalog_csv, f) (inr (merchant, refl, active, atomic))
              ]
        ]
      ]
