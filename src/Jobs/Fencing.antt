-- ===== src/Jobs/Fencing.antt =====
-- Claims and transitions of several workers of talap/ingestion/jobs.py, in any order: the claim
-- generation fences off every worker but the last that claimed the job.
use talap_ml.Common.{
  ℕ, ◌+◌, ◌<◌, ◌≤◌, ◌≡◌, refl, ◌⊎◌, inl, inr, Bool, Option, none, some, List, arith, ==_iff, err,
}
use talap_ml.Common.Int.{ℤ}
use talap_ml.Common.Table.{Uuid}
use talap_ml.Jobs.{
  Job, ClaimedJob, JobError, completed, failed, HasJobKeys, find_job,
  claim_one_message_processing_job, claimed_row, is_eligible, stale_claim, invalid_transition,
}
use talap_ml.Jobs.Claim.{claim-HasJobKeys, claim_lem, snapshot}
use talap_ml.Jobs.Outcomes.{Move, transition, transition_lem, Refuses, missing, idle, outdated}
use talap_ml.Jobs.Steps.{
  Reach, here, next, RowStep, same, claimed, moved, created, Step-RowStep, Reach-HasJobKeys,
}

abbrev IsTerminal : Job → Type 0
IsTerminal j = (j.status ≡ completed) ⊎ (j.status ≡ failed)

-- A row whose claim generation is at least `a`.
abbrev HasReached : ℕ → Option Job → Type 0
HasReached a none = ⊥
HasReached a (some j) = a ≤ j.attempts

HasReached-weaken : (a b : ℕ) (r : Option Job) → a ≤ b → HasReached b r → HasReached a r
HasReached-weaken a b none le h = h
HasReached-weaken a b (some j) le h = omega arith

RowStep-HasReached : {r s : Option Job} (a : ℕ) → RowStep r s → HasReached a r → HasReached a s
unfolding claimed_row
RowStep-HasReached a (same r) h = h
RowStep-HasReached a (claimed now stale_after j e) h = omega arith
RowStep-HasReached a (moved m b now j owned) h = ground arith
RowStep-HasReached a (created j) h = absurd h

RowStep-terminal :
    {r s : Option Job} {j : Job} → RowStep r s → IsTerminal j → r ≡ some j → s ≡ some j
unfolding is_eligible
RowStep-terminal (same r) t e = e
RowStep-terminal (claimed now stale_after i eligible) t e = ground arith
RowStep-terminal (moved m b now i owned) t e = ground arith
RowStep-terminal (created i) t e = cc

module _ {jobs : List Job} (keys : HasJobKeys jobs) where
  Reach-HasReached :
      {after : List Job} (k : Uuid) (a : ℕ)
      → Reach jobs after
      → HasReached a (find_job k jobs)
      → HasReached a (find_job k after)
  Reach-HasReached k a here h = h
  Reach-HasReached k a (next r s) h =
      RowStep-HasReached a (Step-RowStep (Reach-HasJobKeys keys r) s k) (Reach-HasReached k a r h)

  -- A completed or failed job keeps its row through any sequence of claims, transitions and
  -- insertions, where the keys are unique.
  pub terminal_absorbs :
      {after : List Job} {j : Job} (k : Uuid)
      → Reach jobs after
      → find_job k jobs ≡ some j
      → (j.status ≡ completed) ⊎ (j.status ≡ failed)
      → find_job k after ≡ some j
  terminal_absorbs k here e t = e
  terminal_absorbs k (next r s) e t =
      RowStep-terminal (Step-RowStep (Reach-HasJobKeys keys r) s k) t (terminal_absorbs k r e t)

-- After a claim the job has reached the generation of the snapshot.
claim-HasReached :
    (locked : Uuid → Bool) (now stale_after : ℤ) (jobs : List Job) (c : ClaimedJob)
    → HasJobKeys jobs
    → (claim_one_message_processing_job locked now stale_after jobs).0 ≡ some c
    → HasReached c.attempts
        (find_job c.job_id (claim_one_message_processing_job locked now stale_after jobs).1)
unfolding claimed_row
claim-HasReached locked now stale_after jobs c keys e =
    elim (claim_lem locked now stale_after jobs keys) [
      | inl (nothing, _, _) ↦ cc (e, nothing)
      | inr (j, _, taken, row) ↦
          let same_claim : c ≡ snapshot now j = cc (e, taken) in
          rw (same_claim, row j.id, (==_iff j.id j.id).1 refl) (omega arith)
    ]

-- A claim of a job that has reached generation `a` returns a later one.
claim-grows :
    (locked : Uuid → Bool) (now stale_after : ℤ) (jobs : List Job) (c : ClaimedJob) (a : ℕ)
    → HasJobKeys jobs
    → (claim_one_message_processing_job locked now stale_after jobs).0 ≡ some c
    → HasReached a (find_job c.job_id jobs)
    → a < c.attempts
claim-grows locked now stale_after jobs c a keys e h =
    elim (claim_lem locked now stale_after jobs keys) [
      | inl (nothing, _, _) ↦ cc (e, nothing)
      | inr (j, is_next, taken, _) ↦
          let same_claim : c ≡ snapshot now j = cc (e, taken) in
          let reached : HasReached a (some j) = rw (same_claim, is_next.0) at h in
          rw same_claim (omega arith)
    ]

-- A caller whose generation has been passed is refused.
refused_of_HasReached :
    (m : Move) (k : Uuid) (a : ℕ) (now : ℤ) (jobs : List Job)
    → HasReached (a + 1) (find_job k jobs)
    → (e : JobError) × (transition m k a now jobs ≡ err e)
      × ((e ≡ invalid_transition) ⊎ (e ≡ stale_claim))
refused_of_HasReached m k a now jobs h = elim (transition_lem m k a now jobs) [
  | inl (j, found, owned, _) ↦
      let reached : HasReached (a + 1) (some j) = rw found at h in absurd (omega arith)
  | inr (e, refusal, refused) ↦ (e, refused, by_refusal refusal h)
]
  where
    by_refusal :
        {r : Option Job} {e : JobError}
        → Refuses a r e
        → HasReached (a + 1) r
        → (e ≡ invalid_transition) ⊎ (e ≡ stale_claim)
    by_refusal missing h = absurd h
    by_refusal (idle j n) h = inl refl
    by_refusal (outdated j p n) h = inr refl

-- Two claims of one job, with any transactions before, between and after them.
module _ (locked : Uuid → Bool) (now stale_after : ℤ) (jobs : List Job) (keys : HasJobKeys jobs)
    (c : ClaimedJob)
    (claimed_first : (claim_one_message_processing_job locked now stale_after jobs).0 ≡ some c)
    (between : List Job)
    (reached : Reach (claim_one_message_processing_job locked now stale_after jobs).1 between)
    (locked' : Uuid → Bool) (now' stale_after' : ℤ) (d : ClaimedJob)
    (claimed_again : (claim_one_message_processing_job locked' now' stale_after' between).0
      ≡ some d)
    (same_job : d.job_id ≡ c.job_id) where
  keys_after_first : HasJobKeys (claim_one_message_processing_job locked now stale_after jobs).1
  keys_after_first = claim-HasJobKeys locked now stale_after jobs keys

  keys_between : HasJobKeys between
  keys_between = Reach-HasJobKeys keys_after_first reached

  held_between : HasReached c.attempts (find_job d.job_id between)
  held_between = rw same_job (
      Reach-HasReached keys_after_first c.job_id c.attempts reached
        (claim-HasReached locked now stale_after jobs c keys claimed_first))

  grows : c.attempts < d.attempts
  grows =
      claim-grows locked' now' stale_after' between d c.attempts keys_between claimed_again
        held_between

  -- When a job that was claimed is claimed again after any transactions, the second claim has a
  -- larger generation, and after any further transactions every completion, release or failure by
  -- the first claimer is refused as an invalid transition or a stale claim.
  pub second_claim_fences_first :
      (last : List Job)
      → Reach (claim_one_message_processing_job locked' now' stale_after' between).1 last
      → (m : Move) (at : ℤ)
      → (c.attempts < d.attempts)
        × ((e : JobError) × (transition m c.job_id c.attempts at last ≡ err e)
            × ((e ≡ invalid_transition) ⊎ (e ≡ stale_claim)))
  second_claim_fences_first last after m at =
      let held : HasReached d.attempts (find_job d.job_id last) =
        Reach-HasReached (claim-HasJobKeys locked' now' stale_after' between keys_between) d.job_id
          d.attempts after
          (claim-HasReached locked' now' stale_after' between d keys_between claimed_again) in
      (
        grows,
        refused_of_HasReached m c.job_id c.attempts at last (
            HasReached-weaken (c.attempts + 1) d.attempts (find_job c.job_id last)
              (omega (arith, grows)) (rw same_job at held)),
      )
