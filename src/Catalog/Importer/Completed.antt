-- ===== src/Catalog/Importer/Completed.antt =====
-- Which imports of talap/catalog/importer.py end as COMPLETED.
use talap_ml.Common.{ℕ, ◌≡◌, refl, true, false, Option, some, List, ok, >>=-eq-ok, ok-subst, length}
use talap_ml.Common.Text.{Text, is_empty}
use talap_ml.Common.Table.{Uuid, find_row}
use talap_ml.Catalog.Rows.{
  CatalogRow, ParseResult, CatalogImportSummary, CatalogDatabase, merchant_id_of, completed,
}
use talap_ml.Catalog.Mutation.{
  NewIds, run_catalog_mutation, upsert_products, upsert_variants, upsert_inventory,
  schedule_indexing_tasks, completed_counters,
}
use talap_ml.Catalog.Mutation.Completes.{run_catalog_mutation-Succeeds}
use talap_ml.Catalog.Importer.{
  ImportKey, Imported, Faults, is_valid_filename, started, mutate_catalog, import_rows,
  import_parsed, import_catalog_csv,
}
use talap_ml.Catalog.Importer.Validation.{IsValidFile, validate_rows_iff}

abbrev pub IsCompleted : List CatalogRow → CatalogImportSummary → Type 0
IsCompleted rows summary =
    (summary.status ≡ completed)
    × (summary.error_count ≡ 0)
    × (summary.counters.valid_rows ≡ length rows)
    × (summary.counters.invalid_rows ≡ 0)

module _ (ids : NewIds) (m import_id : Uuid) where
  run_catalog_mutation-IsCompleted :
      (rows : List CatalogRow) (db after : CatalogDatabase) (summary : CatalogImportSummary)
      → run_catalog_mutation ids m import_id rows db ≡ ok (summary, after)
      → IsCompleted rows summary
  unfolding run_catalog_mutation completed_counters
  run_catalog_mutation-IsCompleted rows db after summary h =
      let up = upsert_products ids m rows db.products in
      let (vr, ev, h1) = >>=-eq-ok (upsert_variants ids m up.0 rows db.variants) _ h in
      let (inv, ei, h2) = >>=-eq-ok (upsert_inventory ids m vr.0 rows db.inventory) _ h1 in
      let (ts, et, h3) = >>=-eq-ok (schedule_indexing_tasks ids m db up.0 0 rows db.tasks) _ h2 in
      ok-subst (λ r. IsCompleted rows r.0) h3 (refl, refl, refl, refl)

module _ (faults : Faults) (ids : NewIds) (key : ImportKey) where
  -- The import returned a completed summary of these rows.
  abbrev pub Completes : List CatalogRow → Imported → Type 0
  Completes rows result =
      (summary : CatalogImportSummary) × (result.0 ≡ ok summary) × IsCompleted rows summary

  mutate_catalog-Completes :
      (slug : Text) (rows : List CatalogRow) (db : CatalogDatabase)
      → IsValidFile rows slug
      → faults.mutation_fails rows db ≡ false
      → Completes rows (mutate_catalog faults ids key rows db)
  unfolding mutate_catalog
  mutate_catalog-Completes slug rows db valid no_fault =
      let ((summary, after), e) =
        run_catalog_mutation-Succeeds ids key.merchant_id key.import_id rows db valid.1 in
      rw (no_fault, mutate_catalog, e)
        (
          summary,
          refl,
          run_catalog_mutation-IsCompleted ids key.merchant_id key.import_id rows db after summary
              e,
        )

  import_rows-Completes :
      (slug : Text) (parsed : ParseResult) (db : CatalogDatabase)
      → is_empty parsed.errors ≡ true
      → IsValidFile parsed.rows slug
      → faults.mutation_fails parsed.rows db ≡ false
      → Completes parsed.rows (import_rows faults ids key slug parsed db)
  unfolding import_rows
  import_rows-Completes slug parsed db no_errors valid no_fault =
      rw (no_errors, import_rows, (validate_rows_iff parsed.rows slug).1 valid)
        (mutate_catalog-Completes slug parsed.rows db valid no_fault)

  -- The import of a file of an active merchant, which has no error and only valid rows, ends as
  -- completed with all rows counted as valid, where the name is valid and the database refuses no
  -- statement of it.
  pub import_catalog_csv-Completes :
      (parse : List ℕ → Option ParseResult) (filename : Text) (content : List ℕ)
      (db : CatalogDatabase) (id : Uuid) (slug : Text) (parsed : ParseResult)
      → is_valid_filename filename ≡ true
      → find_row merchant_id_of key.merchant_id db.merchants
        ≡ some (record { id = id; slug = slug; active = true })
      → parse content ≡ some parsed
      → is_empty parsed.errors ≡ true
      → IsValidFile parsed.rows slug
      → faults.mutation_fails parsed.rows (started faults ids key filename db) ≡ false
      → Completes parsed.rows (import_catalog_csv faults ids parse key filename content db)
  unfolding import_catalog_csv import_parsed
  import_catalog_csv-Completes parse filename content db id slug parsed named found answer no_errors
        valid no_fault =
      rw (named, import_catalog_csv, found, answer, import_parsed)
        (import_rows-Completes slug parsed (started faults ids key filename db) no_errors valid
          no_fault)
