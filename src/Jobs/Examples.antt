-- ===== src/Jobs/Examples.antt =====
-- Two jobs of talap/ingestion/jobs.py: one that waits, and one that is completed.
use talap_ml.Common.{
  length, ◌≤◌, ℕ, ◌<◌, ◌≡◌, ◌⊎◌, refl, inl, inr, Bool, false, Option, none, some, List, [], ◌∷◌,
  err,
}
use talap_ml.Common.Int.{ℤ, pos, leb_ℤ}
use talap_ml.Common.Text.{is_empty, text}
use talap_ml.Common.Table.{Uuid, find_row, update_row}
use talap_ml.Common.Sorting.{order_by}
use talap_ml.Common.Columns.{precedes}
use talap_ml.Jobs.{
  sanitize_error_message, max_error_length, Job, JobError, invalid_transition, stale_claim, pending,
  completed, ClaimedJob, HasJobKeys, find_job, claimed_row, is_eligible, next_job, claim_row,
  claim_one_message_processing_job,
}
use talap_ml.Jobs.Errors.{sanitize_error_message_bounds}
use talap_ml.Jobs.Claim.{ClaimsNext, claim_lem}
use talap_ml.Jobs.Outcomes.{complete, transition, MovesOrRefuses, transition_lem}
use talap_ml.Jobs.Steps.{here, next, claim}
use talap_ml.Jobs.Fencing.{terminal_absorbs, second_claim_fences_first}

abbrev pub waiting : Job
waiting = record {
  id = 7;
  message_id = 70;
  status = pending;
  attempts = 0;
  available_at = pos 5;
  started_at = none;
  completed_at = none;
  last_error = none;
  created_at = pos 5;
  updated_at = pos 5;
}

abbrev done : Job
done = record {
  id = 8;
  message_id = 80;
  status = completed;
  attempts = 1;
  available_at = pos 1;
  started_at = some (pos 2);
  completed_at = some (pos 3);
  last_error = none;
  created_at = pos 1;
  updated_at = pos 3;
}

abbrev table : List Job
table = done ∷ waiting ∷ []

abbrev unlocked : Uuid → Bool
unlocked k = false

abbrev first_claim : ClaimedJob
first_claim = record { job_id = 7; message_id = 70; attempts = 1; started_at = pos 10 }

abbrev second_claim : ClaimedJob
second_claim = record { job_id = 7; message_id = 70; attempts = 2; started_at = pos 20 }

abbrev claimed_once : List Job
claimed_once = (claim_one_message_processing_job unlocked (pos 10) (pos 5) table).1

table-HasJobKeys : HasJobKeys table
unfolding find_row
table-HasJobKeys = (refl, (refl, tt))

takes_waiting :
    (claim_one_message_processing_job unlocked (pos 10) (pos 5) table).0 ≡ some first_claim
unfolding claim_one_message_processing_job next_job claim_row claimed_row is_eligible order_by
    precedes
takes_waiting = refl

takes_stale :
    (claim_one_message_processing_job unlocked (pos 20) (pos 5) claimed_once).0 ≡ some second_claim
unfolding claim_one_message_processing_job next_job claim_row claimed_row is_eligible order_by
    precedes update_row talap_ml.Common.Int.◌-ℤ◌
takes_stale = refl

finds_done : find_job 8 table ≡ some done
unfolding find_row
finds_done = refl

claim_lem_example : ClaimsNext unlocked (pos 10) (pos 5) table table-HasJobKeys
claim_lem_example = claim_lem unlocked (pos 10) (pos 5) table table-HasJobKeys

transition_lem_example : MovesOrRefuses complete 7 1 (pos 11) claimed_once
transition_lem_example = transition_lem complete 7 1 (pos 11) claimed_once

terminal_absorbs_example : find_job 8 claimed_once ≡ some done
terminal_absorbs_example =
    terminal_absorbs table-HasJobKeys 8 (next here (claim unlocked (pos 10) (pos 5) table))
      finds_done (inl refl)

second_claim_fences_first_example :
    (1 < 2)
    × ((e : JobError) × (transition complete 7 1
            (pos 21)
            (claim_one_message_processing_job unlocked (pos 20) (pos 5) claimed_once).1
          ≡ err e)
        × ((e ≡ invalid_transition) ⊎ (e ≡ stale_claim)))
second_claim_fences_first_example =
    second_claim_fences_first unlocked (pos 10) (pos 5) table table-HasJobKeys first_claim
      takes_waiting claimed_once here unlocked (pos 20) (pos 5) second_claim takes_stale refl
      (claim_one_message_processing_job unlocked (pos 20) (pos 5) claimed_once).1 here complete
      (pos 21)

sanitize_error_message_bounds_example :
    (is_empty (sanitize_error_message (text "  ")) ≡ false)
    × (length (sanitize_error_message (text "  ")) ≤ max_error_length)
sanitize_error_message_bounds_example = sanitize_error_message_bounds (text "  ")
