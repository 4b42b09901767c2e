-- ===== src/Indexing/Processor/Write.antt =====
-- talap/indexing/processor.py: the transactions that end the processing of a task.
use talap_ml.Common.{
  ℕ, Bool, true, false, Option, none, some, List, [], ◌∷◌, ◌++◌, if◌then◌else◌, not, Result, ok,
  ◌>>=◌,
}
use talap_ml.Common.Int.{ℤ}
use talap_ml.Common.Text.{Text, text_eq}
use talap_ml.Common.Table.{Uuid, update_row}
use talap_ml.Indexing.Worker.{
  Task, ClaimedTask, task_key, find_task, check_claim, completed_row, failed_row_as,
  sanitize_error_message, decide_failure_outcome, mark_indexing_task_failed,
}
use talap_ml.Indexing.Rows.{
  Product, ProductVariant, ProductEmbedding, Database, EmbeddingResult, EmbeddingClient,
}
use talap_ml.Indexing.Processor.Results.{
  ProcessResult, ProcessError, embedded, product_missing_message, variant_missing_message,
  document_changed_message, failure_result, catch_stale, lift_task, effective_max_attempts,
}
use talap_ml.Indexing.Processor.Read.{find_product, find_variant, find_embedding, index_text}

-- what the call is given, beside the database
pub record ProcessCall (F : Type 0) : Type 0 where
  pub claimed : ClaimedTask
  pub client : EmbeddingClient F
  pub max_attempts : ℕ
  pub retry_delay : ℤ
  pub process_time : ℤ
  -- the `uuid4()` of an inserted embedding
  pub new_id : Uuid

abbrev pub embedding_key : {F : Type 0} → ProductEmbedding F → Uuid
embedding_key e = e.id

module _ {F : Type 0} (call : ProcessCall F) where
  open call use {claimed, client, max_attempts, retry_delay, process_time, new_id}

  -- `_fail_task_and_result`
  unfoldable pub fail_task_and_result :
      Bool → Text → Database F → Result ProcessError (ProcessResult × Database F)
  fail_task_and_result force_permanent message db = catch_stale claimed db (do
    (outcome, tasks) ← lift_task (
        mark_indexing_task_failed claimed.task_id claimed.attempts message
          (effective_max_attempts force_permanent max_attempts) retry_delay process_time db.tasks)
    ok (failure_result outcome claimed message, record db { tasks = tasks }))

  -- `_apply_failure_in_session`, the commit and `_failure_result`
  unfoldable pub fail_in_session : Bool → Text → Task → Database F → ProcessResult × Database F
  unfolding update_row failed_row_as decide_failure_outcome sanitize_error_message
  fail_in_session force_permanent message task db =
      let outcome =
        decide_failure_outcome task.attempts
          (effective_max_attempts force_permanent max_attempts) in
      let write = failed_row_as outcome (sanitize_error_message message) retry_delay process_time in
      (
        failure_result outcome claimed message,
        record db { tasks = update_row task_key claimed.task_id write db.tasks },
      )

  unfoldable pub new_embedding : Text → Text → EmbeddingResult F → ProductEmbedding F
  new_embedding document_text document_sha256 result = record {
    id = new_id;
    merchant_id = claimed.merchant_id;
    product_id = claimed.product_id;
    provider = client.provider;
    model = client.model;
    dimensions = client.dimensions;
    document_text = document_text;
    document_sha256 = document_sha256;
    embedding = result.vector;
    embedded_at = process_time;
    updated_at = process_time;
  }

  unfoldable pub updated_embedding :
      Text → Text → EmbeddingResult F → ProductEmbedding F → ProductEmbedding F
  updated_embedding document_text document_sha256 result e = record e {
    provider = client.provider;
    model = client.model;
    dimensions = client.dimensions;
    document_text = document_text;
    document_sha256 = document_sha256;
    embedding = result.vector;
    embedded_at = process_time;
    updated_at = process_time;
  }

  -- the row that is inserted or updated, and the table
  unfoldable pub store_embedding :
      Text
      → Text
      → EmbeddingResult F
      → Option (ProductEmbedding F)
      → List (ProductEmbedding F)
      → Uuid × List (ProductEmbedding F)
  unfolding new_embedding updated_embedding update_row
  store_embedding document_text document_sha256 result none rows =
      (new_id, rows ++ new_embedding document_text document_sha256 result ∷ [])
  store_embedding document_text document_sha256 result (some e) rows = (
    e.id,
    update_row embedding_key e.id (updated_embedding document_text document_sha256 result) rows,
  )

  abbrev pub embedded_result : Uuid → ProcessResult
  embedded_result id = record {
    status = embedded;
    task_id = claimed.task_id;
    product_id = claimed.product_id;
    merchant_id = claimed.merchant_id;
    embedding_id = some id;
    message = none;
  }

  module _ (sha256 : Text → Text) (result : EmbeddingResult F)
      (document_text document_sha256 : Text) where
    -- the document is unchanged: the embedding is stored and the task completed
    unfoldable pub store_and_complete :
        Database F → Result ProcessError (ProcessResult × Database F)
    unfolding store_embedding completed_row update_row
    store_and_complete db = do
      existing ← find_embedding claimed db
      let (id, rows) = store_embedding document_text document_sha256 result existing db.embeddings
      ok (
        embedded_result id,
        record db {
          embeddings = rows;
          tasks = update_row task_key claimed.task_id (completed_row process_time) db.tasks;
        },
      )

    unfoldable pub write_for_variant :
        Task
        → Database F
        → Product
        → Option ProductVariant
        → Result ProcessError (ProcessResult × Database F)
    unfolding store_and_complete
    write_for_variant task db p none = ok (fail_in_session false variant_missing_message task db)
    write_for_variant task db p (some v) =
        if not (text_eq (sha256 (index_text p v)) document_sha256)
        then ok (fail_in_session false document_changed_message task db)
        else store_and_complete db

    unfoldable pub write_for_product :
        Task → Database F → Option Product → Result ProcessError (ProcessResult × Database F)
    unfolding write_for_variant
    write_for_product task db none = ok (fail_in_session true product_missing_message task db)
    write_for_product task db (some p) = write_for_variant task db p (find_variant claimed db)

    -- `_write_embedding_atomically`
    unfoldable pub write_embedding_atomically :
        Database F → Result ProcessError (ProcessResult × Database F)
    unfolding check_claim write_for_product
    write_embedding_atomically db = do
      task ← lift_task (check_claim claimed.attempts (find_task claimed.task_id db.tasks))
      write_for_product task db (find_product claimed db)
