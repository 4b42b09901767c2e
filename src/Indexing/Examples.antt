-- ===== src/Indexing/Examples.antt =====
-- A database of one product for talap/indexing/worker.py and talap/indexing/processor.py.
use talap_ml.Common.{
  any, ℕ, ◌≡◌, ◌≤◌, ◌≢◌, refl, arith, Bool, false, none, some, List, [], ◌∷◌, ok, err,
}
use talap_ml.Common.Int.{pos, ◌≤ℤ◌}
use talap_ml.Common.Text.{Text, text}
use talap_ml.Common.Table.{Uuid, find_row, HasUniqueKeys}
use talap_ml.Indexing.Worker.{
  Task, pending, processing, completed, ClaimedTask, HasTaskKeys, find_task,
}
use talap_ml.Indexing.Worker.Claim.{ClaimsBatch, claim_indexing_tasks_lem}
use talap_ml.Indexing.Worker.Outcomes.{
  CompletesOrRefuses, FailsOrRefuses, mark_indexing_task_completed_lem,
  mark_indexing_task_failed_lem,
}
use talap_ml.Indexing.Documents.{build_product_index_text}
use talap_ml.Indexing.Documents.Lines.{
  is_carriage_return, unified_document, build_product_index_text_lines,
}
use talap_ml.Indexing.Rows.{Product, ProductVariant, Database, EmbeddingClient}
use talap_ml.Indexing.Processor.Results.{task_error}
use talap_ml.Indexing.Worker.{invalid_transition}
use talap_ml.Indexing.Processor.Read.{find_embedding}
use talap_ml.Indexing.Processor.Write.{ProcessCall, embedding_key}
use talap_ml.Indexing.Processor.{process_claimed_indexing_task}
use talap_ml.Indexing.Processor.Effects.{process_effect}
use talap_ml.Indexing.Processor.Reported.{HasEffect}
use talap_ml.Indexing.Processor.Embedded.{HasStored, process_stores_current}
use talap_ml.Indexing.Processor.Raises.{finished_task_raises}

abbrev task : Task
task = record {
  id = 3;
  merchant_id = 1;
  product_id = 2;
  status = processing;
  changed_fields = text "name" ∷ [];
  attempts = 1;
  available_at = pos 0;
  started_at = some (pos 4);
  completed_at = none;
  last_error = none;
  created_at = pos 0;
  updated_at = pos 4;
}

abbrev waiting_task : Task
waiting_task = record task { id = 4; status = pending; attempts = 0; started_at = none }

abbrev finished_task : Task
finished_task = record task { status = completed; completed_at = some (pos 5) }

abbrev tasks : List Task
tasks = task ∷ waiting_task ∷ []

abbrev unlocked : Uuid → Bool
unlocked k = false

abbrev product : Product
product = record {
  id = 2;
  merchant_id = 1;
  name = text "Desk";
  category = text "Tables";
  description = text "Oak desk";
}

abbrev variant : ProductVariant
variant = record { id = 5; product_id = 2; merchant_id = 1; material = some (text "Oak") }

abbrev database : Database ℕ
database = record {
  tasks = tasks;
  products = product ∷ [];
  variants = variant ∷ [];
  embeddings = [];
}

-- a client whose vectors have two entries
abbrev client : EmbeddingClient ℕ
client = record {
  provider = text "jina";
  model = text "m";
  dimensions = 2;
  embed_document = λ document.
      ok (record { vector = 1 ∷ 0 ∷ []; provider = text "jina"; model = text "m"; dimensions = 2 });
}

abbrev claimed : ClaimedTask
claimed = record {
  task_id = 3;
  merchant_id = 1;
  product_id = 2;
  changed_fields = text "name" ∷ [];
  attempts = 1;
  started_at = pos 4;
}

abbrev call : ProcessCall ℕ
call = record {
  claimed = claimed;
  client = client;
  max_attempts = 3;
  retry_delay = pos 60;
  process_time = pos 9;
  new_id = 11;
}

-- a hash for the examples
abbrev digest : Text → Text
digest s = s

abbrev finished_database : Database ℕ
finished_database = record database { tasks = finished_task ∷ [] }

tasks-HasTaskKeys : HasTaskKeys tasks
unfolding find_row
tasks-HasTaskKeys = (refl, (refl, tt))

claim_indexing_tasks_lem_example : ClaimsBatch unlocked 1 (pos 100) (pos 6) tasks tasks-HasTaskKeys
claim_indexing_tasks_lem_example =
    claim_indexing_tasks_lem unlocked 1 (pos 100) (pos 6) tasks tasks-HasTaskKeys

mark_indexing_task_completed_lem_example : CompletesOrRefuses 3 1 (pos 9) tasks
mark_indexing_task_completed_lem_example = mark_indexing_task_completed_lem 3 1 (pos 9) tasks

mark_indexing_task_failed_lem_example :
    FailsOrRefuses 3 1 (text "Provider failed.") 3 (pos 60) (pos 9) tasks
mark_indexing_task_failed_lem_example =
    mark_indexing_task_failed_lem 3 1 (text "Provider failed.") 3 (pos 60) (pos 9) tasks

one_attempt : 1 ≤ 1
one_attempt = omega arith

attempts_allowed : 1 ≤ 3
attempts_allowed = omega arith

delay_allowed : pos 0 ≤ℤ pos 60
delay_allowed = ground arith

process_effect_example :
    HasEffect call database (process_claimed_indexing_task digest call database database)
process_effect_example = process_effect call database one_attempt digest database

no_rows : HasUniqueKeys (embedding_key {F = ℕ}) []
no_rows = tt

new_id_unused : find_row (embedding_key {F = ℕ}) 11 [] ≡ none
unfolding find_row
new_id_unused = refl

process_stores_current_example :
    HasStored digest call database (process_claimed_indexing_task digest call database database)
process_stores_current_example =
    process_stores_current digest call database no_rows database new_id_unused

finds_finished : find_task 3 finished_database.tasks ≡ some finished_task
unfolding find_row
finds_finished = refl

is_finished : completed ≢ processing
is_finished = λ e. ground arith

no_embedding : find_embedding claimed database ≡ ok none
unfolding find_embedding
no_embedding = refl

finished_task_raises_example :
    process_claimed_indexing_task digest call database finished_database
    ≡ err (task_error invalid_transition)
finished_task_raises_example =
    finished_task_raises digest call database finished_database one_attempt attempts_allowed
      delay_allowed finished_task finds_finished is_finished no_embedding

abbrev document : Text
document = build_product_index_text (text " Desk\r\n") (text "Tables") (text "Oak\rdesk") none

build_product_index_text_lines_example :
    (document ≡ unified_document (text " Desk\r\n") (text "Tables") (text "Oak\rdesk") none)
    × (any is_carriage_return document ≡ false)
build_product_index_text_lines_example =
    build_product_index_text_lines (text " Desk\r\n") (text "Tables") (text "Oak\rdesk") none
