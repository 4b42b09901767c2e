-- ===== src/Jobs.antt =====
-- talap/ingestion/jobs.py: the lifecycle of `MessageProcessingJob` rows, over the table of jobs. Each
-- operation is one transaction, so it is a function of the table as its row locks show it. `now`
-- is the time that the call reads: its argument, or the clock where the argument is None.
pub mod Claim
pub mod Outcomes
pub mod Steps
pub mod Fencing
pub mod Errors
pub mod Examples
use talap_ml.Common.{
  ℕ, ◌+◌, Bool, true, false, ◌&&◌, ◌||◌, not, Option, none, some, List, ltb, ◌==◌, if◌then◌else◌,
  take, first, select, Result, ok, err, ◌>>=◌,
}
use talap_ml.Common.Int.{ℤ, pos, ◌+ℤ◌, ◌-ℤ◌, leb_ℤ}
use talap_ml.Common.Text.{Text, text, is_empty, strip}
use talap_ml.Common.Table.{Uuid, find_row, update_row, HasUniqueKeys}
use talap_ml.Common.Sorting.{order_by}
use talap_ml.Common.Columns.{Columns, precedes}

pub data JobStatus : Type 0 where
  pending processing completed failed : JobStatus

abbrev pub is_pending : JobStatus → Bool
is_pending pending = true
is_pending _ = false

abbrev pub is_processing : JobStatus → Bool
is_processing processing = true
is_processing _ = false

pub record Job : Type 0 where
  pub id : Uuid
  pub message_id : Uuid
  pub status : JobStatus
  pub attempts : ℕ
  pub available_at : ℤ
  pub started_at : Option ℤ
  pub completed_at : Option ℤ
  pub last_error : Option Text
  pub created_at : ℤ
  pub updated_at : ℤ

pub record ClaimedJob : Type 0 where
  pub job_id : Uuid
  pub message_id : Uuid
  pub attempts : ℕ
  pub started_at : ℤ

abbrev pub job_key : Job → Uuid
job_key j = j.id

abbrev pub find_job : Uuid → List Job → Option Job
find_job k jobs = find_row job_key k jobs

-- The primary keys of the table differ.
abbrev pub HasJobKeys : List Job → Type 0
HasJobKeys jobs = HasUniqueKeys job_key jobs

pub data JobError : Type 0 where
  not_found invalid_transition stale_claim : JobError

abbrev pub default_max_attempts : ℕ
default_max_attempts = 3

-- five and fifteen minutes, in microseconds
abbrev pub default_retry_delay : ℤ
default_retry_delay = pos 300000000

abbrev pub default_stale_after : ℤ
default_stale_after = pos 900000000

abbrev pub max_error_length : ℕ
max_error_length = 500

abbrev pub blank_error_message : Text
blank_error_message = text "WhatsApp echo processing failed."

pub sanitize_error_message : Text → Text
unfolding strip
sanitize_error_message message =
    let stripped = strip message in
    if is_empty stripped then blank_error_message else take max_error_length stripped

pub decide_failure_outcome : ℕ → ℕ → JobStatus
decide_failure_outcome attempts max_attempts = if ltb attempts max_attempts then pending else failed

-- a comparison with NULL is not true
abbrev pub at_or_before : Option ℤ → ℤ → Bool
at_or_before none t = false
at_or_before (some s) t = leb_ℤ s t

-- the WHERE of the claim
pub is_eligible : ℤ → ℤ → Job → Bool
is_eligible claim_time stale_after j =
    (is_pending j.status && leb_ℤ j.available_at claim_time)
    || (is_processing j.status && at_or_before j.started_at (claim_time -ℤ stale_after))

-- the ORDER BY of the claim
abbrev pub claim_columns : Job → Columns
claim_columns j = record { available_at = j.available_at; created_at = j.created_at; id = j.id }

abbrev pub claims_before : Job → Job → Bool
claims_before a b = precedes (claim_columns a) (claim_columns b)

-- FOR UPDATE SKIP LOCKED: a row that another transaction has locked is passed over
abbrev pub can_claim : (Uuid → Bool) → ℤ → ℤ → Job → Bool
can_claim locked claim_time stale_after j =
    is_eligible claim_time stale_after j && not (locked j.id)

pub next_job : (Uuid → Bool) → ℤ → ℤ → List Job → Option Job
unfolding order_by precedes is_eligible
next_job locked claim_time stale_after jobs =
    first (order_by claims_before (select (can_claim locked claim_time stale_after) jobs))

-- the assignments to the claimed row
pub claimed_row : ℤ → Job → Job
claimed_row claim_time j = record j {
  status = processing;
  attempts = j.attempts + 1;
  started_at = some claim_time;
  completed_at = none;
  last_error = none;
  updated_at = claim_time;
}

claim_row : ℤ → Option Job → List Job → Option ClaimedJob × List Job
unfolding claimed_row update_row
claim_row claim_time none jobs = (none, jobs)
claim_row claim_time (some j) jobs = (
  some (record {
    job_id = j.id;
    message_id = j.message_id;
    attempts = (claimed_row claim_time j).attempts;
    started_at = claim_time;
  }),
  update_row job_key j.id (claimed_row claim_time) jobs,
)

unfoldable pub claim_one_message_processing_job :
    (Uuid → Bool) → ℤ → ℤ → List Job → Option ClaimedJob × List Job
unfolding next_job claim_row
claim_one_message_processing_job locked now stale_after jobs =
    claim_row now (next_job locked now stale_after jobs) jobs

check_claim : ℕ → Option Job → Result JobError Job
check_claim expected_attempt none = err not_found
check_claim expected_attempt (some j) =
    if not (is_processing j.status)
    then err invalid_transition
    else if not (j.attempts == expected_attempt)
    then err stale_claim
    else ok j

pub load_claimed_job : Uuid → ℕ → List Job → Result JobError Job
unfolding check_claim find_row
load_claimed_job job_id expected_attempt jobs = check_claim expected_attempt (find_job job_id jobs)

-- the loaded row is flushed by its primary key
save_job : Uuid → (Job → Job) → List Job → List Job
unfolding update_row
save_job job_id f jobs = update_row job_key job_id f jobs

pub completed_row : ℤ → Job → Job
completed_row now j = record j {
  status = completed;
  completed_at = some now;
  last_error = none;
  updated_at = now;
}

pub released_row : ℤ → Job → Job
released_row now j = record j {
  status = pending;
  available_at = now;
  started_at = none;
  completed_at = none;
  updated_at = now;
}

-- the assignments of a failed attempt, by its outcome
failed_row_as : JobStatus → Text → ℤ → ℤ → Job → Job
failed_row_as pending safe_message retry_delay now j = record j {
  status = pending;
  available_at = now +ℤ retry_delay;
  started_at = none;
  completed_at = none;
  last_error = some safe_message;
  updated_at = now;
}
failed_row_as _ safe_message retry_delay now j = record j {
  status = failed;
  completed_at = some now;
  last_error = some safe_message;
  updated_at = now;
}

unfoldable pub complete_message_processing_job :
    Uuid → ℕ → ℤ → List Job → Result JobError (List Job)
unfolding load_claimed_job completed_row save_job
complete_message_processing_job job_id expected_attempt now jobs = do
  j ← load_claimed_job job_id expected_attempt jobs
  ok (save_job job_id (completed_row now) jobs)

unfoldable pub release_message_processing_job : Uuid → ℕ → ℤ → List Job → Result JobError (List Job)
unfolding load_claimed_job released_row save_job
release_message_processing_job job_id expected_attempt now jobs = do
  j ← load_claimed_job job_id expected_attempt jobs
  ok (save_job job_id (released_row now) jobs)

unfoldable pub fail_message_processing_job :
    Uuid → ℕ → Text → ℕ → ℤ → ℤ → List Job → Result JobError (JobStatus × List Job)
unfolding load_claimed_job failed_row_as save_job decide_failure_outcome sanitize_error_message
fail_message_processing_job job_id expected_attempt error_message max_attempts retry_delay now
      jobs =
    do
      let safe_message = sanitize_error_message error_message
      j ← load_claimed_job job_id expected_attempt jobs
      let outcome = decide_failure_outcome j.attempts max_attempts
      ok (outcome, save_job job_id (failed_row_as outcome safe_message retry_delay now) jobs)
