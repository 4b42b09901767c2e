-- ===== src/Indexing/Processor/Effects.antt =====
-- What a call of talap/indexing/processor.py that returns has done to the task, by the status that it
-- reports.
use talap_ml.Common.{
  ◌≤◌, ◌≡◌, refl, inl, inr, Bool, true, false, some, ok, Bool-cases, Result-cases, Option-cases,
  subst,
}
use talap_ml.Common.Text.{Text, text_eq}
use talap_ml.Common.Table.{update_row}
use talap_ml.Indexing.Worker.{
  Task, TaskStatus, task_key, find_task, completed_row, failed_row_as, sanitize_error_message,
  decide_failure_outcome,
}
use talap_ml.Indexing.Worker.Outcomes.{
  IsOwnedBy, update_row-Writes, failed_row_as_self, failed_row_as-key, failed_row-status,
  check_claim-cases, mark_indexing_task_completed_lem, mark_indexing_task_failed_lem,
}
use talap_ml.Indexing.Rows.{Database, EmbeddingResult}
use talap_ml.Indexing.Processor.Results.{
  effective_max_attempts, failure_status, catch_stale, product_missing_message,
  variant_missing_message, document_changed_message,
}
use talap_ml.Indexing.Processor.Read.{
  find_embedding, find_embedding-raises, find_product, find_variant, index_text,
}
use talap_ml.Indexing.Processor.Write.{
  ProcessCall, fail_in_session, fail_task_and_result, store_and_complete, write_for_product,
  write_embedding_atomically,
}
use talap_ml.Indexing.Processor.{skip, process_claimed_indexing_task}
use talap_ml.Indexing.Processor.Paths.{process_paths}
use talap_ml.Indexing.Processor.Reported.{Effect, HasEffect, refused-HasEffect, failing-Effect}

module _ {F : Type 0} (call : ProcessCall F) (after : Database F)
    (claimed_attempt : 1 ≤ call.claimed.attempts) where
  fail-HasEffect :
      (force : Bool) (message : Text)
      → HasEffect call after (fail_task_and_result call force message after)
  unfolding fail_task_and_result
  fail-HasEffect force message =
      elim (mark_indexing_task_failed_lem call.claimed.task_id call.claimed.attempts message
        (effective_max_attempts force call.max_attempts) call.retry_delay call.process_time
        after.tasks) [
          | inl (valid, t, found, owned, table, e, writes) ↦
              rw e
                (failing-Effect call after claimed_attempt force message t table found owned writes)
          | inr (inl (valid, e, refusal, r)) ↦ rw r (refused-HasEffect call after refl refusal)
          | inr (inr (invalid, r)) ↦ rw r tt
        ]

  skip-HasEffect : (sha256 : Text → Text) → HasEffect call after (skip sha256 call after)
  unfolding skip
  skip-HasEffect sha256 =
      elim (mark_indexing_task_completed_lem call.claimed.task_id call.claimed.attempts
        call.process_time after.tasks) [
          | inl (valid, t, found, owned, table, e, writes) ↦
              rw e ((t, found, owned, writes), (refl, refl), refl)
          | inr (inl (valid, e, refusal, r)) ↦ rw r (refused-HasEffect call after refl refusal)
          | inr (inr (invalid, r)) ↦ rw r tt
        ]

  -- the transition of the failed task in the session that has locked it
  fail_in_session-Effect :
      (force : Bool) (message : Text) (t : Task)
      → find_task call.claimed.task_id after.tasks ≡ some t
      → IsOwnedBy call.claimed.attempts t
      → HasEffect call after (ok (fail_in_session call force message t after))
  unfolding fail_in_session
  fail_in_session-Effect force message t found owned =
      let outcome =
        decide_failure_outcome t.attempts (effective_max_attempts force call.max_attempts) in
      let write =
        failed_row_as outcome (sanitize_error_message message) call.retry_delay call.process_time in
      let writes =
        update_row-Writes write
          (failed_row_as-key outcome (sanitize_error_message message) call.retry_delay
            call.process_time)
          call.claimed.task_id after.tasks t found in
      let table = update_row task_key call.claimed.task_id write after.tasks in
      let limit = effective_max_attempts force call.max_attempts in
      subst
        (λ (s : TaskStatus).
          Effect call after (failure_status s) (some message) (record after { tasks = table }))
        (failed_row-status message limit call.retry_delay call.process_time t)
        (failing-Effect call after claimed_attempt force message t table found owned
          (rw (← failed_row_as_self message limit call.retry_delay call.process_time t) writes))

  module _ (sha256 : Text → Text) (result : EmbeddingResult F)
      (document_text document_sha256 : Text) (t : Task)
      (found : find_task call.claimed.task_id after.tasks ≡ some t)
      (owned : IsOwnedBy call.claimed.attempts t) where
    store-HasEffect : HasEffect call after (
        catch_stale call.claimed after
          (store_and_complete call sha256 result document_text document_sha256 after))
    unfolding store_and_complete
    store-HasEffect = elim (Result-cases (find_embedding call.claimed after)) [
      | inl (existing, read) ↦ rw read (
        (
          t,
          found,
          owned,
          unfold completed_row in
              update_row-Writes (completed_row call.process_time) (λ r. refl) call.claimed.task_id
                after.tasks t found,
        ),
        (refl, refl),
      )
      | inr (e, read) ↦ rw (read, find_embedding-raises call.claimed after e read) tt
    ]

    write_for_product-HasEffect : HasEffect call after (
        catch_stale call.claimed after (
          write_for_product call sha256 result document_text document_sha256 t after
            (find_product call.claimed after)))
    unfolding write_for_product
    write_for_product-HasEffect = elim (Option-cases (find_product call.claimed after)) [
      | inl gone ↦ rw gone (fail_in_session-Effect true product_missing_message t found owned)
      | inr (p, at_product) ↦ elim (Option-cases (find_variant call.claimed after)) [
        | inl gone ↦
            rw (at_product, gone)
              (fail_in_session-Effect false variant_missing_message t found owned)
        | inr (v, at_variant) ↦
            elim (Bool-cases (text_eq (sha256 (index_text p v)) document_sha256)) [
              | inl same ↦ rw (at_product, at_variant, same) store-HasEffect
              | inr changed ↦
                  rw (at_product, at_variant, changed)
                    (fail_in_session-Effect false document_changed_message t found owned)
            ]
      ]
    ]

  write-HasEffect :
      (sha256 : Text → Text) (result : EmbeddingResult F) (document_text document_sha256 : Text)
      → HasEffect call after (
          catch_stale call.claimed after
            (write_embedding_atomically call sha256 result document_text document_sha256 after))
  unfolding write_embedding_atomically
  write-HasEffect sha256 result document_text document_sha256 =
      elim (check_claim-cases call.claimed.attempts (find_task call.claimed.task_id after.tasks)) [
        | inl (t, found, owned, loaded) ↦
            rw loaded (
              write_for_product-HasEffect sha256 result document_text document_sha256 t found owned)
        | inr (e, refusal, refused) ↦ rw refused (refused-HasEffect call after refl refusal)
      ]

  -- What a call of the processor reports is what it has done to the task, for any change of the
  -- database since its first read and a generation of at least 1: completed, scheduled again
  -- within the limit of attempts, failed for good, or nothing where the claim is stale.
  pub process_effect :
      (sha256 : Text → Text) (before : Database F)
      → HasEffect call after (process_claimed_indexing_task sha256 call before after)
  process_effect sha256 before =
      process_paths sha256 call before after (HasEffect call after) (λ e many. tt) fail-HasEffect
        (skip-HasEffect sha256)
        (λ document result answered d n. write-HasEffect sha256 result document (sha256 document))
