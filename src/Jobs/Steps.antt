-- ===== src/Jobs/Steps.antt =====
-- The transactions of several workers of talap/ingestion/jobs.py, in any order, and what one does to
-- each row.
use talap_ml.Common.{
  ℕ, ◌≡◌, inl, inr, Bool, true, Option, none, some, List, [], ◌∷◌, ◌++◌, arith, ◌==◌, ==_iff,
  Option-cases, Bool-cases, ok,
}
use talap_ml.Common.Int.{ℤ}
use talap_ml.Common.Table.{Uuid, find_row, append-HasUniqueKeys, find_row-append}
use talap_ml.Jobs.{
  Job, job_key, HasJobKeys, find_job, claim_one_message_processing_job, claimed_row, is_eligible,
  can_claim,
}
use talap_ml.Jobs.Claim.{claim-HasJobKeys, claim_lem}
use talap_ml.Jobs.Outcomes.{
  transition-HasJobKeys, Move, moved_row, transition, transition_lem, IsOwnedBy,
}

-- One committed transaction on the table of jobs.
pub data Step : List Job → List Job → Type 0 where
  claim :
      (locked : Uuid → Bool) (now stale_after : ℤ) (jobs : List Job)
      → Step jobs (claim_one_message_processing_job locked now stale_after jobs).1
  move :
      (m : Move) (k : Uuid) (a : ℕ) (now : ℤ) {jobs moved : List Job}
      → transition m k a now jobs ≡ ok moved
      → Step jobs moved
  -- the insertion of a new job, by talap/ingestion/service.py
  enqueue : (j : Job) {jobs : List Job} → find_job j.id jobs ≡ none → Step jobs (jobs ++ j ∷ [])

pub data Reach (jobs : List Job) : List Job → Type 0 where
  here : Reach jobs jobs
  next : {before after : List Job} → Reach jobs before → Step before after → Reach jobs after

-- What happens to the row of each key: it stays, it is claimed, its owner moves it, or it is new.
pub data RowStep : Option Job → Option Job → Type 0 where
  same : (r : Option Job) → RowStep r r
  claimed :
      (now stale_after : ℤ) (j : Job)
      → is_eligible now stale_after j ≡ true
      → RowStep (some j) (some (claimed_row now j))
  moved :
      (m : Move) (a : ℕ) (now : ℤ) (j : Job)
      → IsOwnedBy a j
      → RowStep (some j) (some (moved_row m now j))
  created : (j : Job) → RowStep none (some j)

eligible_of_can_claim :
    (locked : Uuid → Bool) (now stale_after : ℤ) (j : Job)
    → can_claim locked now stale_after j ≡ true
    → is_eligible now stale_after j ≡ true
eligible_of_can_claim locked now stale_after j h = ground arith

created_or_absent : (j : Job) (k : Uuid) → RowStep none (find_job k (j ∷ []))
unfolding find_row
created_or_absent j k = elim (Bool-cases (j.id == k)) [
  | inl e ↦ rw e (created j)
  | inr e ↦ rw e (same none)
]

pub Step-RowStep :
    {jobs after : List Job}
    → HasJobKeys jobs
    → Step jobs after
    → (k : Uuid) → RowStep (find_job k jobs) (find_job k after)
Step-RowStep keys (claim locked now stale_after jobs) k =
    elim (claim_lem locked now stale_after jobs keys) [
      | inl (_, unchanged, _) ↦ rw unchanged (same (find_job k jobs))
      | inr (j, is_next, _, row) ↦ elim (Bool-cases (j.id == k)) [
        | inl e ↦
            let found : find_job k jobs ≡ some j = rw (← (==_iff j.id k).0 e) is_next.0 in
            rw (row k, e, found)
              (claimed now stale_after j (eligible_of_can_claim locked now stale_after j is_next.1))
        | inr e ↦ rw (row k, e) (same (find_job k jobs))
      ]
    ]
Step-RowStep {jobs} {after} keys (move m i a now e) k = elim (transition_lem m i a now jobs) [
  | inl (j, found, owned, (table, written, row)) ↦
      let same_table : table ≡ after = cc (e, written) in
      elim (Bool-cases (i == k)) [
        | inl same_key ↦
            let found_k : find_job k jobs ≡ some j = rw (← (==_iff i k).0 same_key) found in
            rw (← same_table, row k, same_key, found_k) (moved m a now j owned)
        | inr other ↦ rw (← same_table, row k, other) (same (find_job k jobs))
      ]
  | inr (x, _, refused) ↦ cc (e, refused)
]
Step-RowStep {jobs} keys (enqueue j fresh) k = elim (Option-cases (find_job k jobs)) [
  | inl absent ↦ rw (find_row-append job_key k jobs (j ∷ []), absent) (created_or_absent j k)
  | inr (r, found) ↦ rw (find_row-append job_key k jobs (j ∷ []), found) (same (some r))
]

pub Step-HasJobKeys : {jobs after : List Job} → HasJobKeys jobs → Step jobs after → HasJobKeys after
Step-HasJobKeys keys (claim locked now stale_after jobs) =
    claim-HasJobKeys locked now stale_after jobs keys
Step-HasJobKeys {jobs} keys (move m k a now e) = transition-HasJobKeys m k a now jobs keys e
Step-HasJobKeys {jobs} keys (enqueue j fresh) = append-HasUniqueKeys job_key jobs j keys fresh

module _ {jobs : List Job} (keys : HasJobKeys jobs) where
  pub Reach-HasJobKeys : {after : List Job} → Reach jobs after → HasJobKeys after
  Reach-HasJobKeys here = keys
  Reach-HasJobKeys (next r s) = Step-HasJobKeys (Reach-HasJobKeys r) s
