-- ===== src/Jobs/Claim.antt =====
-- What a claim of talap/ingestion/jobs.py takes, and what it writes.
use talap_ml.Common.{
  ◌+◌, ◌≡◌, refl, ◌⊎◌, inl, inr, Bool, true, false, none, some, List, arith, ◌==◌, if◌then◌else◌,
  All,
}
use talap_ml.Common.Int.{ℤ}
use talap_ml.Common.Table.{
  Uuid, found_of_HasUniqueKeys, update_row-HasUniqueKeys, find_row-update_row,
}
use talap_ml.Common.Columns.{precedes-IsTotalOrder}
use talap_ml.Common.Least.{first-order_by}
use talap_ml.Jobs.{
  Job, ClaimedJob, job_key, HasJobKeys, find_job, can_claim, claims_before, claim_columns, next_job,
  claimed_row, claim_one_message_processing_job,
}

-- The snapshot of `j` as a claim at `now` leaves it.
abbrev pub snapshot : ℤ → Job → ClaimedJob
snapshot now j = record {
  job_id = j.id;
  message_id = j.message_id;
  attempts = j.attempts + 1;
  started_at = now;
}

module _ (locked : Uuid → Bool) (now stale_after : ℤ) (jobs : List Job)
    (keys : HasJobKeys jobs) where
  -- `j` can be claimed, and comes first among the jobs that can.
  abbrev pub IsNext : Job → Type 0
  IsNext j =
      (find_job j.id jobs ≡ some j)
      × (can_claim locked now stale_after j ≡ true)
      × All (λ r. can_claim locked now stale_after r ≡ true → claims_before j r ≡ true) jobs

  next_job-cases :
      ((next_job locked now stale_after jobs ≡ none)
        × All (λ r. can_claim locked now stale_after r ≡ false) jobs)
      ⊎ ((j : Job) × (next_job locked now stale_after jobs ≡ some j) × IsNext j)
  unfolding next_job
  next_job-cases =
      first-order_by claims_before (λ r. find_job r.id jobs ≡ some r)
        (can_claim locked now stale_after) (precedes-IsTotalOrder claim_columns) jobs
        (found_of_HasUniqueKeys job_key jobs keys)

  -- The claim took the first job that can be claimed, or there is none.
  abbrev pub ClaimsNext : Type 0
  ClaimsNext =
      let claim = claim_one_message_processing_job locked now stale_after jobs in
      ((claim.0 ≡ none)
        × (claim.1 ≡ jobs)
        × All (λ r. can_claim locked now stale_after r ≡ false) jobs)
      ⊎ ((j : Job) × IsNext j
          × (claim.0 ≡ some (snapshot now j))
          × ((k : Uuid)
              → find_job k claim.1
                ≡ (if j.id == k then some (claimed_row now j) else find_job k jobs)))

  -- With unique keys, a claim takes the first job in the order of the claim among the unlocked
  -- jobs that can be claimed, writes that row alone and returns its snapshot; it returns None and
  -- writes nothing exactly where no job can be claimed.
  pub claim_lem : ClaimsNext
  unfolding claim_one_message_processing_job
  claim_lem = elim next_job-cases [
    | inl (e, none_left) ↦ rw e (inl (refl, refl, none_left))
    | inr (j, e, next) ↦ rw e (
        inr (
          j,
          next,
          refl,
          λ k. ground (
            arith,
            next.0,
            find_row-update_row job_key (claimed_row now) (λ r. refl) j.id k jobs,
          ),
        ))
  ]

  pub claim-HasJobKeys : HasJobKeys (claim_one_message_processing_job locked now stale_after jobs).1
  unfolding claim_one_message_processing_job
  claim-HasJobKeys = elim next_job-cases [
    | inl (e, _) ↦ rw e keys
    | inr (j, e, _) ↦
        rw e (update_row-HasUniqueKeys job_key (claimed_row now) (λ r. refl) j.id jobs keys)
  ]
