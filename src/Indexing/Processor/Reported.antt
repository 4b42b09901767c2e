-- ===== src/Indexing/Processor/Reported.antt =====
-- What the results of talap/indexing/processor.py say of the task, by the status that they report.
use talap_ml.Common.{
  ◌≤◌, ◌≡◌, ◌≢◌, ◌<◌, refl, inl, inr, Bool, true, false, ltb, Option, none, some, List, arith,
  Result, ok, err, Bool-cases,
}
use talap_ml.Common.Int.{◌+ℤ◌}
use talap_ml.Common.Text.{Text}
use talap_ml.Indexing.Worker.{
  Task, TaskError, pending, processing, completed, failed, find_task, sanitize_error_message,
}
use talap_ml.Indexing.Worker.Outcomes.{
  IsOwnedBy, Refuses, missing, idle, outdated, Writes, failed_row,
}
use talap_ml.Indexing.Rows.{Database}
use talap_ml.Indexing.Processor.Results.{
  ProcessError, ProcessResult, ProcessStatus, embedded, skipped_unchanged, retry_scheduled,
  permanently_failed, stale, task_error, effective_max_attempts, failure_status, catch_stale,
}
use talap_ml.Indexing.Processor.Write.{ProcessCall}

module _ {F : Type 0} (call : ProcessCall F) (after : Database F) where
  -- The claim was current: the row `t` of the task became `row t`, and no other task changed.
  abbrev pub Turns : (Task → Task) → Database F → Type 0
  Turns row db =
      (t : Task) × (find_task call.claimed.task_id after.tasks ≡ some t)
      × IsOwnedBy call.claimed.attempts t
      × Writes call.claimed.task_id (row t) after.tasks db.tasks

  abbrev pub finished_row : Task → Task
  finished_row t = record t {
    status = completed;
    completed_at = some call.process_time;
    last_error = none;
    updated_at = call.process_time;
  }

  abbrev pub retried_row : Text → Task → Task
  retried_row message t = record t {
    status = pending;
    available_at = call.process_time +ℤ call.retry_delay;
    started_at = none;
    completed_at = none;
    last_error = some (sanitize_error_message message);
    updated_at = call.process_time;
  }

  abbrev pub given_up_row : Text → Task → Task
  given_up_row message t = record t {
    status = failed;
    completed_at = some call.process_time;
    last_error = some (sanitize_error_message message);
    updated_at = call.process_time;
  }

  -- The tables of the catalog are as they were.
  abbrev pub KeepsCatalog : Database F → Type 0
  KeepsCatalog db = (db.products ≡ after.products) × (db.variants ≡ after.variants)

  -- What each reported status means.
  abbrev pub Effect : ProcessStatus → Option Text → Database F → Type 0
  Effect embedded message db = Turns finished_row db × KeepsCatalog db
  Effect skipped_unchanged message db =
      Turns finished_row db × KeepsCatalog db × (db.embeddings ≡ after.embeddings)
  Effect retry_scheduled message db =
      (error : Text) × (message ≡ some error)
      × Turns (retried_row error) db
      × (call.claimed.attempts < call.max_attempts)
      × KeepsCatalog db
      × (db.embeddings ≡ after.embeddings)
  Effect permanently_failed message db =
      (error : Text) × (message ≡ some error)
      × Turns (given_up_row error) db
      × KeepsCatalog db
      × (db.embeddings ≡ after.embeddings)
  Effect stale message db =
      (db ≡ after)
      × (t : Task) × (find_task call.claimed.task_id after.tasks ≡ some t)
      × (t.status ≡ processing)
      × (t.attempts ≢ call.claimed.attempts)

  -- A call that raises commits nothing.
  abbrev pub HasEffect : Result ProcessError (ProcessResult × Database F) → Type 0
  HasEffect (ok (r, db)) = Effect r.status r.message db
  HasEffect (err e) = Unit

  pub refused-HasEffect :
      {r : Option Task} {e : TaskError}
      → find_task call.claimed.task_id after.tasks ≡ r
      → Refuses call.claimed.attempts r e
      → HasEffect (catch_stale call.claimed after (err (task_error e)))
  refused-HasEffect found missing = tt
  refused-HasEffect found (idle t n) = tt
  refused-HasEffect found (outdated t p n) = (refl, t, found, p, n)

  module _ (claimed_attempt : 1 ≤ call.claimed.attempts) where
    -- With at least one attempt made, a retry is within the caller's limit.
    within_limit :
        (force : Bool) (t : Task)
        → t.attempts ≡ call.claimed.attempts
        → ltb t.attempts (effective_max_attempts force call.max_attempts) ≡ true
        → call.claimed.attempts < call.max_attempts
    within_limit true t e h = absurd (ground arith)
    within_limit false t e h = ground arith

    pub failing-Effect :
        (force : Bool) (message : Text) (t : Task) (table : List Task)
        → find_task call.claimed.task_id after.tasks ≡ some t
        → IsOwnedBy call.claimed.attempts t
        → Writes call.claimed.task_id
            (failed_row message
              (effective_max_attempts force call.max_attempts)
              call.retry_delay
              call.process_time
              t)
            after.tasks
            table
        → Effect
            (failure_status
              (failed_row message
                (effective_max_attempts force call.max_attempts)
                call.retry_delay
                call.process_time
                t).status)
            (some message)
            (record after { tasks = table })
    failing-Effect force message t table found owned writes =
        elim (Bool-cases (ltb t.attempts (effective_max_attempts force call.max_attempts))) [
          | inl left ↦
              let retried : Writes call.claimed.task_id (retried_row message t) after.tasks table =
                rw left at writes in
              rw left (
                message,
                refl,
                (t, found, owned, retried),
                within_limit force t owned.1 left,
                (refl, refl),
                refl,
              )
          | inr none_left ↦
              let given_up : Writes call.claimed.task_id (given_up_row message t) after.tasks
                  table =
                rw none_left at writes in
              rw none_left (message, refl, (t, found, owned, given_up), (refl, refl), refl)
        ]
