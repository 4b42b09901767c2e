-- ===== src/Indexing/Processor/Raises.antt =====
-- A worker of talap/indexing/processor.py whose task another worker has finished.
use talap_ml.Common.{ℕ, ◌≤◌, ◌≡◌, ◌≢◌, refl, Bool, true, false, Option, some, arith, ok, err}
use talap_ml.Common.Int.{pos, ◌≤ℤ◌}
use talap_ml.Common.Text.{Text}
use talap_ml.Indexing.Worker.{
  Task, TaskStatus, is_processing, processing, invalid_transition, find_task, check_claim,
  mark_indexing_task_completed, mark_indexing_task_failed,
}
use talap_ml.Indexing.Rows.{Database, ProductEmbedding}
use talap_ml.Indexing.Processor.Results.{task_error}
use talap_ml.Indexing.Processor.Read.{find_embedding}
use talap_ml.Indexing.Processor.Write.{
  ProcessCall, fail_task_and_result, write_embedding_atomically,
}
use talap_ml.Indexing.Processor.{skip, process_claimed_indexing_task}
use talap_ml.Indexing.Processor.Paths.{process_paths}

not_processing : (s : TaskStatus) → s ≢ processing → is_processing s ≡ false
not_processing TaskStatus.pending h = refl
not_processing TaskStatus.processing h = absurd (h refl)
not_processing TaskStatus.completed h = refl
not_processing TaskStatus.failed h = refl

check_claim-idle :
    (a : ℕ) (found : Option Task) (t : Task)
    → found ≡ some t
    → t.status ≢ processing
    → check_claim a found ≡ err invalid_transition
unfolding check_claim
check_claim-idle a found t e n = rw (e, not_processing t.status n)

module _ {F : Type 0} (sha256 : Text → Text) (call : ProcessCall F) (before after : Database F)
    (claimed_attempt : 1 ≤ call.claimed.attempts) (attempts_allowed : 1 ≤ call.max_attempts)
    (delay : pos 0 ≤ℤ call.retry_delay) (t : Task)
    (found : find_task call.claimed.task_id after.tasks ≡ some t)
    (finished : t.status ≢ processing) where
  refused :
      check_claim call.claimed.attempts (find_task call.claimed.task_id after.tasks)
      ≡ err invalid_transition
  refused =
      check_claim-idle call.claimed.attempts (find_task call.claimed.task_id after.tasks) t found
        finished

  failing_raises :
      (force : Bool) (message : Text)
      → fail_task_and_result call force message after ≡ err (task_error invalid_transition)
  unfolding fail_task_and_result mark_indexing_task_failed
  failing_raises true message = rw refused (ground arith)
  failing_raises false message = rw refused (ground arith)

  skipping_raises : skip sha256 call after ≡ err (task_error invalid_transition)
  unfolding skip mark_indexing_task_completed
  skipping_raises = rw refused (ground arith)

  -- A call whose task is no longer being processed when its last transaction begins raises
  -- InvalidIndexingTaskTransitionError and commits nothing, where its arguments are in range and
  -- its first read finds at most one embedding.
  pub finished_task_raises :
      {e : Option (ProductEmbedding F)}
      → find_embedding call.claimed before ≡ ok e
      → process_claimed_indexing_task sha256 call before after ≡ err (task_error invalid_transition)
  unfolding write_embedding_atomically
  finished_task_raises {e} read =
      process_paths sha256 call before after (λ r. r ≡ err (task_error invalid_transition))
        (λ x many. cc (read, many)) failing_raises skipping_raises
        (λ document result answered d n. rw refused)
