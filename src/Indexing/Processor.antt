-- ===== src/Indexing/Processor.antt =====
-- talap/indexing/processor.py: one claimed task, from the claim to a stored embedding. `before` is
-- the database that the first read sees, `after` the database when the last transaction begins:
-- what other transactions commit in between, while the provider is called, is any change at all.
-- A call that raises has committed nothing of its own.
pub mod Results
pub mod Read
pub mod Write
mod Paths
pub mod Raises
pub mod Reported
pub mod Effects
pub mod Embedded
use talap_ml.Common.{
  ℕ, Bool, true, false, ◌||◌, not, Option, none, some, ◌==◌, if◌then◌else◌, length, Result, ok, err,
  ◌>>=◌,
}
use talap_ml.Common.Text.{Text, text, is_empty, strip}
use talap_ml.Indexing.Worker.{mark_indexing_task_completed}
use talap_ml.Indexing.Rows.{
  Product, Database, EmbeddingResult, EmbeddingClient, CatalogSnapshot, ProviderError, jina_error,
}
use Results.{
  ProcessResult, ProcessError, skipped_unchanged, assertion_failed, product_missing_message,
  variant_missing_message, dimension_mismatch_message, safe_provider_message, lift_task,
  catch_stale,
}
use Read.{read_catalog_state, embedding_identical}
use Write.{ProcessCall, fail_task_and_result, write_embedding_atomically}

module _ {F : Type 0} (sha256 : Text → Text) (call : ProcessCall F) where
  open call use {claimed, client, process_time}

  skipped_result : ProcessResult
  skipped_result = record {
    status = skipped_unchanged;
    task_id = claimed.task_id;
    product_id = claimed.product_id;
    merchant_id = claimed.merchant_id;
    embedding_id = none;
    message = some (text "Embedding already current.");
  }

  -- the embedding is current: only the task is completed
  pub skip : Database F → Result ProcessError (ProcessResult × Database F)
  unfolding skipped_result
  skip db = catch_stale claimed db (do
    tasks ←
        lift_task
          (mark_indexing_task_completed claimed.task_id claimed.attempts process_time db.tasks)
    ok (skipped_result, record db { tasks = tasks }))

  -- the provider has answered
  use_result :
      Text
      → Text
      → Database F
      → Result ProviderError (EmbeddingResult F)
      → Result ProcessError (ProcessResult × Database F)
  unfolding safe_provider_message
  use_result document sha db (err e) = fail_task_and_result call false (safe_provider_message e) db
  use_result document sha db (ok result) =
      if not (result.dimensions == client.dimensions)
        || not (length result.vector == client.dimensions)
      then fail_task_and_result call false dimension_mismatch_message db
      else catch_stale claimed db (write_embedding_atomically call sha256 result document sha db)

  embed :
      CatalogSnapshot F
      → Option Text
      → Option Text
      → Database F
      → Result ProcessError (ProcessResult × Database F)
  unfolding skip use_result
  embed snapshot none _ db = err assertion_failed
  embed snapshot (some document) none db = err assertion_failed
  embed snapshot (some document) (some sha) db =
      if embedding_identical snapshot.existing_embedding client sha
      then skip db
      else use_result document sha db (client.embed_document document)

  is_none : {A : Type 0} → Option A → Bool
  is_none none = true
  is_none (some _) = false

  finish : CatalogSnapshot F → Database F → Result ProcessError (ProcessResult × Database F)
  unfolding embed is_none
  finish snapshot db =
      if is_none snapshot.product
      then fail_task_and_result call true product_missing_message db
      else if is_none snapshot.variant
      then fail_task_and_result call false variant_missing_message db
      else embed snapshot snapshot.document_text snapshot.document_sha256 db

  unfoldable pub process_claimed_indexing_task :
      Database F → Database F → Result ProcessError (ProcessResult × Database F)
  unfolding finish
  process_claimed_indexing_task before after = do
    snapshot ← read_catalog_state sha256 claimed before
    finish snapshot after
