-- ===== src/Indexing/Worker.antt =====
-- talap/indexing/worker.py: the lifecycle of `ProductIndexingTask` rows. Each operation validates its
-- arguments and then is one transaction on the table of tasks, as its row locks show it.
pub mod Claim
pub mod Outcomes
use talap_ml.Common.{
  ℕ, ◌+◌, Bool, true, false, ◌&&◌, ◌||◌, not, Option, none, some, List, [], ◌∷◌, map, ltb, leb,
  ◌==◌, if◌then◌else◌, take, select, Result, ok, err, ◌>>=◌, ◌>>◌,
}
use talap_ml.Common.Int.{ℤ, pos, ◌+ℤ◌, ◌-ℤ◌, leb_ℤ, ltb_ℤ}
use talap_ml.Common.Text.{Text, text, is_empty, strip}
use talap_ml.Common.Table.{Uuid, find_row, update_row, HasUniqueKeys}
use talap_ml.Common.Sorting.{order_by}
use talap_ml.Common.Batch.{update_all}
use talap_ml.Common.Columns.{Columns, precedes}

pub data TaskStatus : Type 0 where
  pending processing completed failed : TaskStatus

abbrev pub is_pending : TaskStatus → Bool
is_pending pending = true
is_pending _ = false

abbrev pub is_processing : TaskStatus → Bool
is_processing processing = true
is_processing _ = false

pub record Task : Type 0 where
  pub id : Uuid
  pub merchant_id : Uuid
  pub product_id : Uuid
  pub status : TaskStatus
  pub changed_fields : List Text
  pub attempts : ℕ
  pub available_at : ℤ
  pub started_at : Option ℤ
  pub completed_at : Option ℤ
  pub last_error : Option Text
  pub created_at : ℤ
  pub updated_at : ℤ

pub record ClaimedTask : Type 0 where
  pub task_id : Uuid
  pub merchant_id : Uuid
  pub product_id : Uuid
  pub changed_fields : List Text
  pub attempts : ℕ
  pub started_at : ℤ

abbrev pub task_key : Task → Uuid
task_key t = t.id

abbrev pub find_task : Uuid → List Task → Option Task
find_task k tasks = find_row task_key k tasks

-- The primary keys of the table differ.
abbrev pub HasTaskKeys : List Task → Type 0
HasTaskKeys tasks = HasUniqueKeys task_key tasks

-- the three domain errors, and the `ValueError` of an argument
pub data TaskError : Type 0 where
  not_found invalid_transition stale_claim invalid_value : TaskError

abbrev pub max_claim_limit : ℕ
max_claim_limit = 100

abbrev pub max_error_length : ℕ
max_error_length = 500

abbrev pub blank_error_message : Text
blank_error_message = text "Indexing task failed."

pub validate_claim_limit : ℕ → Result TaskError (Unit {0})
validate_claim_limit limit =
    if not (leb 1 limit && leb limit max_claim_limit) then err invalid_value else ok tt

pub validate_expected_attempt : ℕ → Result TaskError (Unit {0})
validate_expected_attempt expected_attempt =
    if ltb expected_attempt 1 then err invalid_value else ok tt

pub validate_failure_inputs : ℕ → ℤ → Result TaskError (Unit {0})
validate_failure_inputs max_attempts retry_delay =
    if ltb max_attempts 1
    then err invalid_value
    else if ltb_ℤ retry_delay (pos 0)
    then err invalid_value
    else ok tt

unfoldable pub sanitize_error_message : Text → Text
unfolding strip
sanitize_error_message message =
    let stripped = strip message in
    if is_empty stripped then blank_error_message else take max_error_length stripped

unfoldable pub decide_failure_outcome : ℕ → ℕ → TaskStatus
decide_failure_outcome attempts max_attempts = if ltb attempts max_attempts then pending else failed

-- a comparison with NULL is not true
abbrev pub at_or_before : Option ℤ → ℤ → Bool
at_or_before none t = false
at_or_before (some s) t = leb_ℤ s t

-- the WHERE of the claim
pub is_eligible : ℤ → ℤ → Task → Bool
is_eligible claim_time stale_after t =
    (is_pending t.status && leb_ℤ t.available_at claim_time)
    || (is_processing t.status && at_or_before t.started_at (claim_time -ℤ stale_after))

-- the ORDER BY of the claim
abbrev pub claim_columns : Task → Columns
claim_columns t = record { available_at = t.available_at; created_at = t.created_at; id = t.id }

abbrev pub claims_before : Task → Task → Bool
claims_before a b = precedes (claim_columns a) (claim_columns b)

-- FOR UPDATE SKIP LOCKED: a row that another transaction has locked is passed over
abbrev pub can_claim : (Uuid → Bool) → ℤ → ℤ → Task → Bool
can_claim locked claim_time stale_after t =
    is_eligible claim_time stale_after t && not (locked t.id)

pub next_tasks : (Uuid → Bool) → ℤ → ℤ → ℕ → List Task → List Task
unfolding order_by precedes is_eligible
next_tasks locked claim_time stale_after limit tasks =
    take limit (order_by claims_before (select (can_claim locked claim_time stale_after) tasks))

-- the assignments to a claimed row
pub claimed_row : ℤ → Task → Task
claimed_row claim_time t = record t {
  status = processing;
  attempts = t.attempts + 1;
  started_at = some claim_time;
  completed_at = none;
  last_error = none;
  updated_at = claim_time;
}

pub snapshot : ℤ → Task → ClaimedTask
unfolding claimed_row
snapshot claim_time t = record {
  task_id = t.id;
  merchant_id = t.merchant_id;
  product_id = t.product_id;
  changed_fields = t.changed_fields;
  attempts = (claimed_row claim_time t).attempts;
  started_at = claim_time;
}

unfoldable pub claim_indexing_tasks :
    (Uuid → Bool) → ℕ → ℤ → ℤ → List Task → Result TaskError (List ClaimedTask × List Task)
unfolding validate_claim_limit next_tasks update_all claimed_row snapshot
claim_indexing_tasks locked limit stale_after now tasks = do
  validate_claim_limit limit
  let claimed = next_tasks locked now stale_after limit tasks
  ok (map (snapshot now) claimed, update_all task_key (claimed_row now) claimed tasks)

unfoldable pub check_claim : ℕ → Option Task → Result TaskError Task
check_claim expected_attempt none = err not_found
check_claim expected_attempt (some t) =
    if not (is_processing t.status)
    then err invalid_transition
    else if not (t.attempts == expected_attempt)
    then err stale_claim
    else ok t

unfoldable pub completed_row : ℤ → Task → Task
completed_row now t = record t {
  status = completed;
  completed_at = some now;
  last_error = none;
  updated_at = now;
}

-- the assignments of a failed attempt, by its outcome
unfoldable pub failed_row_as : TaskStatus → Text → ℤ → ℤ → Task → Task
failed_row_as pending safe_message retry_delay now t = record t {
  status = pending;
  available_at = now +ℤ retry_delay;
  started_at = none;
  completed_at = none;
  last_error = some safe_message;
  updated_at = now;
}
failed_row_as _ safe_message retry_delay now t = record t {
  status = failed;
  completed_at = some now;
  last_error = some safe_message;
  updated_at = now;
}

unfoldable pub mark_indexing_task_completed :
    Uuid → ℕ → ℤ → List Task → Result TaskError (List Task)
unfolding validate_expected_attempt check_claim find_row completed_row update_row
mark_indexing_task_completed task_id expected_attempt now tasks = do
  validate_expected_attempt expected_attempt
  t ← check_claim expected_attempt (find_task task_id tasks)
  ok (update_row task_key task_id (completed_row now) tasks)

unfoldable pub mark_indexing_task_failed :
    Uuid → ℕ → Text → ℕ → ℤ → ℤ → List Task → Result TaskError (TaskStatus × List Task)
unfolding validate_expected_attempt validate_failure_inputs check_claim find_row failed_row_as
    update_row decide_failure_outcome sanitize_error_message
mark_indexing_task_failed task_id expected_attempt error_message max_attempts retry_delay now
      tasks =
    do
      validate_expected_attempt expected_attempt
      validate_failure_inputs max_attempts retry_delay
      let safe_message = sanitize_error_message error_message
      t ← check_claim expected_attempt (find_task task_id tasks)
      let outcome = decide_failure_outcome t.attempts max_attempts
      ok (
        outcome,
        update_row task_key task_id (failed_row_as outcome safe_message retry_delay now) tasks,
      )
