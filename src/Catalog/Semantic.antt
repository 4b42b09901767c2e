-- ===== src/Catalog/Semantic.antt =====
-- talap/indexing/decisions.py and scheduler.py: which changes of a product create an indexing task.
use talap_ml.Common.{
  Bool, true, false, Option, none, some, List, [], ◌∷◌, ◌++◌, any, select, if◌then◌else◌,
}
use talap_ml.Common.Int.{ℤ}
use talap_ml.Common.Text.{Text, text, text_eq, is_empty}
use talap_ml.Common.Table.{Uuid}
use talap_ml.Indexing.Worker.{Task, pending}
use talap_ml.Catalog.Rows.{CatalogRow}

-- the values of the four fields, None where there is none
pub record SemanticValues : Type 0 where
  pub name : Option Text
  pub description : Option Text
  pub category : Option Text
  pub material : Option Text

-- in the order of their names, which is the one that the scheduler sorts them in
abbrev pub semantic_product_fields : List Text
semantic_product_fields = text "category" ∷ text "description" ∷ text "material" ∷ text "name" ∷ []

abbrev pub value_eq : Option Text → Option Text → Bool
value_eq none none = true
value_eq (some a) (some b) = text_eq a b
value_eq none (some _) = false
value_eq (some _) none = false

-- the field, where its value differs
abbrev pub field_if_changed : Text → Option Text → Option Text → List Text
field_if_changed name before after = if value_eq before after then [] else name ∷ []

unfoldable pub semantic_changed_fields : SemanticValues → SemanticValues → List Text
semantic_changed_fields before after =
    field_if_changed (text "category") before.category after.category
    ++ field_if_changed (text "description") before.description after.description
    ++ field_if_changed (text "material") before.material after.material
    ++ field_if_changed (text "name") before.name after.name

-- `_row_semantic_values`
abbrev pub row_semantic_values : CatalogRow → SemanticValues
row_semantic_values row = record {
  name = some row.product_name;
  description = some row.description;
  category = some row.category;
  material = row.material;
}

abbrev pub is_semantic : Text → Bool
is_semantic field = any (text_eq field) semantic_product_fields

-- The fields are given in their sorted order, so that the selected ones are sorted.
module _ (id : Uuid) (now : ℤ) where
  abbrev pub new_task : Uuid → Uuid → List Text → Task
  new_task merchant_id product_id fields = record {
    id = id;
    merchant_id = merchant_id;
    product_id = product_id;
    status = pending;
    changed_fields = fields;
    attempts = 0;
    available_at = now;
    started_at = none;
    completed_at = none;
    last_error = none;
    created_at = now;
    updated_at = now;
  }

  unfoldable pub schedule_product_indexing : Uuid → Uuid → List Text → List Task → List Task
  schedule_product_indexing merchant_id product_id changed_fields tasks =
      let semantic_fields = select is_semantic changed_fields in
      if is_empty semantic_fields
      then tasks
      else tasks ++ new_task merchant_id product_id semantic_fields ∷ []
