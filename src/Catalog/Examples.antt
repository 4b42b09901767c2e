-- ===== src/Catalog/Examples.antt =====
-- A merchant's file of two rows, for talap/catalog/importer.py.
use talap_ml.Common.{
  ◌+◌, ◌≡◌, refl, ◌↔◌, ◌⊎◌, true, false, none, some, ok, List, [], ◌∷◌, All, Succeeds,
}
use talap_ml.Common.Int.{pos}
use talap_ml.Common.Text.{text, text_eq, is_empty, strip}
use talap_ml.Common.Table.{find_row}
use talap_ml.Catalog.Rows.{CatalogRow, ParseResult, CatalogDatabase, Merchant, merchant_id_of}
use talap_ml.Catalog.Mutation.{NewIds, run_catalog_mutation}
use talap_ml.Catalog.Mutation.Stored.{IsStored, run_catalog_mutation-IsStored}
use talap_ml.Catalog.Mutation.Completes.{run_catalog_mutation-Succeeds}
use talap_ml.Catalog.Mutation.Others.{SameRows, run_catalog_mutation-keeps_others}
use talap_ml.Catalog.Mutation.Again.{run_catalog_mutation-again}
use talap_ml.Catalog.Parser.{Readers, csv_file, parse_catalog_csv, required_columns}
use talap_ml.Catalog.Parser.Counts.{IsConsistentAnswer, parse_catalog_csv-IsConsistent}
use talap_ml.Catalog.Importer.{Faults, ImportKey, import_catalog_csv, validate_rows, started}
use talap_ml.Catalog.Importer.Validation.{IsValidFile, validate_rows_iff}
use talap_ml.Catalog.Importer.Atomic.{IsSameCatalog, IsAtomic, import_catalog_csv-IsAtomic}
use talap_ml.Catalog.Importer.Completed.{Completes, import_catalog_csv-Completes}

abbrev ids : NewIds
ids = record {
  product_ids = λ i. 100 + i;
  variant_ids = λ i. 200 + i;
  inventory_ids = λ i. 300 + i;
  task_ids = λ i. 400 + i;
  now = pos 5;
}

abbrev later_ids : NewIds
later_ids = record {
  product_ids = λ i. 500 + i;
  variant_ids = λ i. 600 + i;
  inventory_ids = λ i. 700 + i;
  task_ids = λ i. 800 + i;
  now = pos 6;
}

abbrev desk : CatalogRow
desk = record {
  merchant_slug = text "m";
  merchant_name = text "M";
  merchant_sku = text "a";
  product_name = text "Desk";
  category = text "desks";
  description = text "";
  price_kzt = 100;
  size = none;
  color = none;
  material = some (text "oak");
  stock_quantity = 3;
  image_url = none;
  active = true;
}

abbrev lamp : CatalogRow
lamp = record desk { merchant_sku = text "b"; product_name = text "Lamp"; material = none }

abbrev rows : List CatalogRow
rows = desk ∷ lamp ∷ []

abbrev parsed : ParseResult
parsed = record { rows = rows; errors = []; total_rows = 2; valid_rows = 2; invalid_rows = 0 }

abbrev merchant : Merchant
merchant = record { id = 1; slug = text "m"; active = true }

abbrev database : CatalogDatabase
database = record {
  merchants = merchant ∷ [];
  imports = [];
  errors = [];
  products = [];
  variants = [];
  inventory = [];
  tasks = [];
}

abbrev key : ImportKey
key = record { import_id = 50; merchant_id = 1 }

abbrev faults : Faults
faults = record { mutation_fails = λ rows db. is_empty rows; recovery_fails = λ db. false }

valid : IsValidFile rows (text "m")
unfolding text_eq
valid = ((refl, (refl, tt)), ((refl, tt), (tt, tt)))

first_run : Succeeds (run_catalog_mutation ids 1 50 rows database)
first_run = run_catalog_mutation-Succeeds ids 1 50 rows database valid.1

second_run : Succeeds (run_catalog_mutation later_ids 1 51 rows first_run.0.1)
second_run = run_catalog_mutation-Succeeds later_ids 1 51 rows first_run.0.1 valid.1

validate_rows_iff_example :
    (is_empty (validate_rows rows (text "m")).0 ≡ true) ↔ IsValidFile rows (text "m")
validate_rows_iff_example = validate_rows_iff rows (text "m")

run_catalog_mutation-IsStored_example :
    All (IsStored 1 first_run.0.1.products first_run.0.1.variants) rows
run_catalog_mutation-IsStored_example =
    run_catalog_mutation-IsStored ids 1 50 rows database first_run.0.1 first_run.0.0 valid.1
      first_run.1

run_catalog_mutation-again_example :
    (second_run.0.1.tasks ≡ first_run.0.1.tasks)
    × (second_run.0.0.counters.created_products ≡ 0)
    × (second_run.0.0.counters.created_variants ≡ 0)
    × (second_run.0.0.counters.updated_products ≡ 2)
run_catalog_mutation-again_example =
    run_catalog_mutation-again ids 1 50 rows database first_run.0.1 first_run.0.0 valid.1
      first_run.1 later_ids 51 second_run.0.1 second_run.0.0 second_run.1

import_catalog_csv-IsAtomic_example :
    let result =
      import_catalog_csv faults ids (λ content. some parsed) key (text "c.csv") [] database in
    IsSameCatalog database result.1
    ⊎ ((m : Merchant) × (find_row merchant_id_of 1 database.merchants ≡ some m)
        × (m.active ≡ true)
        × IsAtomic ids key
            (some parsed)
            m.slug
            (started faults ids key (text "c.csv") database)
            result)
import_catalog_csv-IsAtomic_example =
    import_catalog_csv-IsAtomic faults ids key (λ content. some parsed) (text "c.csv") [] database

import_catalog_csv-Completes_example :
    Completes faults ids key rows
      (import_catalog_csv faults ids (λ content. some parsed) key (text "c.csv") [] database)
unfolding strip find_row
import_catalog_csv-Completes_example =
    import_catalog_csv-Completes faults ids key (λ content. some parsed) (text "c.csv") [] database
      1 (text "m") parsed refl refl refl refl valid refl

-- a file with another SKU, after the first one
abbrev chair : CatalogRow
chair = record desk { merchant_sku = text "c"; product_name = text "Chair" }

chair_run : Succeeds (run_catalog_mutation later_ids 1 52 (chair ∷ []) first_run.0.1)
chair_run = run_catalog_mutation-Succeeds later_ids 1 52 (chair ∷ []) first_run.0.1 (tt, tt)

run_catalog_mutation-keeps_others_example : SameRows (1, text "a") first_run.0.1 chair_run.0.1
unfolding text_eq
run_catalog_mutation-keeps_others_example =
    run_catalog_mutation-keeps_others later_ids 1 52 (chair ∷ []) first_run.0.1 chair_run.0.1
      chair_run.0.0 (1, text "a") (refl, tt) chair_run.1

-- a file with the required columns and two rows, the second of which is too long
abbrev readers : Readers
readers = record {
  decode = λ content. some content;
  read_csv = λ decoded.
      csv_file (some required_columns) (required_columns ∷ (text "x" ∷ required_columns) ∷ []) none;
  conversions = record { lower = λ t. t; iso_date = λ t. some t };
  model_validate = λ row. ok desk;
}

parse_catalog_csv-IsConsistent_example :
    IsConsistentAnswer (parse_catalog_csv readers (text "file"))
parse_catalog_csv-IsConsistent_example = parse_catalog_csv-IsConsistent readers (text "file")
