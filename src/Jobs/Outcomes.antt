-- ===== src/Jobs/Outcomes.antt =====
-- The transitions of talap/ingestion/jobs.py: only the owner of the current claim makes them.
use talap_ml.Common.{
  ℕ, ◌≡◌, ◌≢◌, refl, ◌⊎◌, inl, inr, true, false, Option, none, some, List, arith, ltb, ◌==◌, ==_iff,
  if◌then◌else◌, Result, ok, err, ◌>>=◌, Bool-cases,
}
use talap_ml.Common.Int.{ℤ, ◌+ℤ◌}
use talap_ml.Common.Text.{Text}
use talap_ml.Common.Table.{update_row-HasUniqueKeys, Uuid, find_row-update_row, update_row}
use talap_ml.Jobs.{
  Job, JobError, JobStatus, is_processing, pending, processing, completed, failed, not_found,
  invalid_transition, stale_claim, job_key, HasJobKeys, find_job, load_claimed_job, check_claim,
  failed_row_as, sanitize_error_message, decide_failure_outcome, complete_message_processing_job,
  release_message_processing_job, fail_message_processing_job,
}

-- A call that transitions a claimed job.
pub data Move : Type 0 where
  complete release : Move
  fail : Text → ℕ → ℤ → Move

-- The table after the call, where it succeeds.
pub transition : Move → Uuid → ℕ → ℤ → List Job → Result JobError (List Job)
transition complete k a now jobs = complete_message_processing_job k a now jobs
transition release k a now jobs = release_message_processing_job k a now jobs
transition (fail message max_attempts delay) k a now jobs = do
  moved ← fail_message_processing_job k a message max_attempts delay now jobs
  ok moved.1

-- `a` is the claim generation that the row `j` is being processed under.
abbrev pub IsOwnedBy : ℕ → Job → Type 0
IsOwnedBy a j = (j.status ≡ processing) × (j.attempts ≡ a)

-- Why a caller with generation `a` may not change the row that it finds.
pub data Refuses (a : ℕ) : Option Job → JobError → Type 0 where
  missing : Refuses a none not_found
  idle : (j : Job) → j.status ≢ processing → Refuses a (some j) invalid_transition
  outdated : (j : Job) → j.status ≡ processing → j.attempts ≢ a → Refuses a (some j) stale_claim

-- The row that a transition at `now` leaves.
abbrev pub moved_row : Move → ℤ → Job → Job
moved_row complete now j = record j {
  status = completed;
  completed_at = some now;
  last_error = none;
  updated_at = now;
}
moved_row release now j = record j {
  status = pending;
  available_at = now;
  started_at = none;
  completed_at = none;
  updated_at = now;
}
moved_row (fail message max_attempts delay) now j =
    let error = some (sanitize_error_message message) in
    if ltb j.attempts max_attempts
    then record j {
      status = pending;
      available_at = now +ℤ delay;
      started_at = none;
      completed_at = none;
      last_error = error;
      updated_at = now;
    }
    else record j { status = failed; completed_at = some now; last_error = error; updated_at = now }

is_processing→eq : (s : JobStatus) → is_processing s ≡ true → s ≡ processing
is_processing→eq s h = ground arith

ne_processing : (s : JobStatus) → is_processing s ≡ false → s ≡ processing → ⊥
ne_processing s h e = ground arith

-- The same with the outcome decided on the row `j` that was loaded.
abbrev moved_row_from : Move → Job → ℤ → Job → Job
moved_row_from (fail message max_attempts delay) j now r =
    failed_row_as (decide_failure_outcome j.attempts max_attempts) (sanitize_error_message message)
      delay now r
moved_row_from complete j now r = moved_row complete now r
moved_row_from release j now r = moved_row release now r

moved_row_from-key : (m : Move) (j : Job) (now : ℤ) (r : Job) → (moved_row_from m j now r).id ≡ r.id
unfolding failed_row_as
moved_row_from-key m j now r = ground arith

moved_row_from_self : (m : Move) (j : Job) (now : ℤ) → moved_row_from m j now j ≡ moved_row m now j
unfolding failed_row_as decide_failure_outcome
moved_row_from_self complete j now = refl
moved_row_from_self release j now = refl
moved_row_from_self (fail message max_attempts delay) j now = ground arith

check_claim-cases :
    (a : ℕ) (found : Option Job)
    → ((j : Job) × (found ≡ some j) × IsOwnedBy a j × (check_claim a found ≡ ok j))
      ⊎ ((e : JobError) × Refuses a found e × (check_claim a found ≡ err e))
unfolding check_claim
check_claim-cases a none = inr (not_found, missing, refl)
check_claim-cases a (some j) = elim (Bool-cases (is_processing j.status)) [
  | inl p ↦ elim (Bool-cases (j.attempts == a)) [
    | inl q ↦ inl (j, refl, (is_processing→eq j.status p, (==_iff j.attempts a).0 q), rw (p, q))
    | inr q ↦ inr (
      stale_claim,
      outdated j (is_processing→eq j.status p) (λ e. cc (q, (==_iff j.attempts a).1 e)),
      rw (p, q),
    )
  ]
  | inr p ↦ inr (invalid_transition, idle j (λ e. ne_processing j.status p e), rw p)
]

pub move-job_key : (m : Move) (now : ℤ) (j : Job) → (moved_row m now j).id ≡ j.id
move-job_key m now j = ground arith

-- The transition on a row that the caller owns.
transition_owned :
    (m : Move) (k : Uuid) (a : ℕ) (now : ℤ) (jobs : List Job) (j : Job)
    → load_claimed_job k a jobs ≡ ok j
    → transition m k a now jobs ≡ ok (update_row job_key k (moved_row_from m j now) jobs)
unfolding transition complete_message_processing_job release_message_processing_job
    fail_message_processing_job
transition_owned complete k a now jobs j e = rw e
transition_owned release k a now jobs j e = rw e
transition_owned (fail message max_attempts delay) k a now jobs j e = rw e refl

transition_refused :
    (m : Move) (k : Uuid) (a : ℕ) (now : ℤ) (jobs : List Job) (x : JobError)
    → load_claimed_job k a jobs ≡ err x
    → transition m k a now jobs ≡ err x
unfolding transition complete_message_processing_job release_message_processing_job
    fail_message_processing_job
transition_refused complete k a now jobs x e = rw e
transition_refused release k a now jobs x e = rw e
transition_refused (fail message max_attempts delay) k a now jobs x e = rw e

module _ (m : Move) (k : Uuid) (a : ℕ) (now : ℤ) (jobs : List Job) where
  -- The owner's call writes the row, and no other row.
  abbrev pub Moves : Type 0
  Moves =
      (j : Job) × (find_job k jobs ≡ some j)
      × IsOwnedBy a j
      × ((moved : List Job) × (transition m k a now jobs ≡ ok moved)
          × ((i : Uuid)
              → find_job i moved ≡ (if k == i then some (moved_row m now j) else find_job i jobs)))

  abbrev pub MovesOrRefuses : Type 0
  MovesOrRefuses =
      Moves ⊎ ((e : JobError) × Refuses a (find_job k jobs) e × (transition m k a now jobs ≡ err e))

  -- A completion, release or failure writes its row alone where the caller owns the current
  -- claim, and is otherwise refused with the error that says why: a missing job, a job that is
  -- not being processed, or a stale claim.
  pub transition_lem : MovesOrRefuses
  unfolding load_claimed_job
  transition_lem = elim (check_claim-cases a (find_job k jobs)) [
    | inl (j, found, owned, loaded) ↦ inl (
      j,
      found,
      owned,
      (
        update_row job_key k (moved_row_from m j now) jobs,
        transition_owned m k a now jobs j loaded,
        λ i. ground (
          arith,
          found,
          moved_row_from_self m j now,
          find_row-update_row job_key (moved_row_from m j now) (moved_row_from-key m j now) k i
              jobs,
        ),
      ),
    )
    | inr (e, refused, loaded) ↦ inr (e, refused, transition_refused m k a now jobs e loaded)
  ]

  pub transition-HasJobKeys :
      {moved : List Job} → HasJobKeys jobs → transition m k a now jobs ≡ ok moved → HasJobKeys moved
  unfolding load_claimed_job
  transition-HasJobKeys {moved} keys e = elim (check_claim-cases a (find_job k jobs)) [
    | inl (j, _, _, loaded) ↦
        let written : update_row job_key k (moved_row_from m j now) jobs ≡ moved =
          cc (e, transition_owned m k a now jobs j loaded) in
        rw (← written) (
          update_row-HasUniqueKeys job_key (moved_row_from m j now) (moved_row_from-key m j now) k
            jobs keys)
    | inr (x, _, loaded) ↦ cc (e, transition_refused m k a now jobs x loaded)
  ]
