-- ===== src/Indexing/Processor/Results.antt =====
-- talap/indexing/processor.py: results, messages and errors.
use talap_ml.Common.{ℕ, Bool, Option, none, some, List, [], ◌∷◌, if◌then◌else◌, Result, ok, err}
use talap_ml.Common.Text.{Text, text, is_empty, strip}
use talap_ml.Common.Table.{Uuid}
use talap_ml.Indexing.Worker.{TaskStatus, ClaimedTask, TaskError, pending, stale_claim}
use talap_ml.Indexing.Rows.{Product, ProviderError, jina_error, other_error}

pub data ProcessStatus : Type 0 where
  embedded skipped_unchanged retry_scheduled permanently_failed stale : ProcessStatus

pub record ProcessResult : Type 0 where
  pub status : ProcessStatus
  pub task_id : Uuid
  pub product_id : Uuid
  pub merchant_id : Uuid
  pub embedding_id : Option Uuid
  pub message : Option Text

-- What the call raises: an error of the queue, `MultipleResultsFound`, or a failed `assert`.
pub data ProcessError : Type 0 where
  task_error : TaskError → ProcessError
  multiple_results assertion_failed : ProcessError

abbrev pub product_missing_message : Text
product_missing_message = text "Product no longer exists."

abbrev pub variant_missing_message : Text
variant_missing_message = text "Product variant is missing."

abbrev pub document_changed_message : Text
document_changed_message = text "Product document changed during processing."

abbrev pub dimension_mismatch_message : Text
dimension_mismatch_message = text "Embedding dimension mismatch."

abbrev pub provider_failure_message : Text
provider_failure_message = text "Embedding provider failed."

abbrev pub stale_message : Text
stale_message = text "Indexing task claim is stale."

unfoldable pub safe_provider_message : ProviderError → Text
unfolding strip
safe_provider_message (jina_error message) =
    let stripped = strip message in if is_empty stripped then provider_failure_message else stripped
safe_provider_message other_error = provider_failure_message

abbrev pub failure_status : TaskStatus → ProcessStatus
failure_status pending = retry_scheduled
failure_status _ = permanently_failed

abbrev pub failure_result : TaskStatus → ClaimedTask → Text → ProcessResult
failure_result outcome c message = record {
  status = failure_status outcome;
  task_id = c.task_id;
  product_id = c.product_id;
  merchant_id = c.merchant_id;
  embedding_id = none;
  message = some message;
}

abbrev pub stale_result : ClaimedTask → ProcessResult
stale_result c = record {
  status = stale;
  task_id = c.task_id;
  product_id = c.product_id;
  merchant_id = c.merchant_id;
  embedding_id = none;
  message = some stale_message;
}

-- an error of the queue, raised in the processor
abbrev pub lift_task : {A : Type 0} → Result TaskError A → Result ProcessError A
lift_task (ok a) = ok a
lift_task (err e) = err (task_error e)

-- `except StaleIndexingTaskClaimError: return _stale_result(...)`; other errors are raised on
abbrev pub catch_stale :
    {S : Type 0}
    → ClaimedTask
    → S
    → Result ProcessError (ProcessResult × S)
    → Result ProcessError (ProcessResult × S)
catch_stale c db (ok r) = ok r
catch_stale c db (err (task_error stale_claim)) = ok (stale_result c, db)
catch_stale c db (err e) = err e

-- `Result.scalar_one_or_none()`
abbrev pub scalar_one_or_none : {A : Type 0} → List A → Result ProcessError (Option A)
scalar_one_or_none [] = ok none
scalar_one_or_none (x ∷ []) = ok (some x)
scalar_one_or_none (x ∷ y ∷ xs) = err multiple_results

-- `force_permanent` makes the first attempt the last
abbrev pub effective_max_attempts : Bool → ℕ → ℕ
effective_max_attempts force_permanent max_attempts = if force_permanent then 1 else max_attempts

pub product_key : Product → Uuid
product_key p = p.id
