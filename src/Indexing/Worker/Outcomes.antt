-- ===== src/Indexing/Worker/Outcomes.antt =====
-- The transitions of talap/indexing/worker.py: only the owner of the current claim makes them.
use talap_ml.Common.{
  ℕ, ◌<◌, ◌≤◌, ◌≡◌, ◌≢◌, refl, ◌⊎◌, inl, inr, true, false, Option, none, some, List, arith, ltb,
  ◌==◌, ==_iff, if◌then◌else◌, Result, ok, err, Bool-cases,
}
use talap_ml.Common.Int.{ℤ, pos, ◌+ℤ◌, ◌≤ℤ◌, ltb_ℤ}
use talap_ml.Common.Text.{Text}
use talap_ml.Common.Table.{Uuid, update_row, find_row-update_row}
use talap_ml.Indexing.Worker.{
  Task, TaskStatus, TaskError, is_processing, pending, processing, completed, failed, not_found,
  invalid_transition, stale_claim, invalid_value, task_key, find_task, check_claim, completed_row,
  failed_row_as, sanitize_error_message, decide_failure_outcome, mark_indexing_task_completed,
  mark_indexing_task_failed,
}

-- `a` is the claim generation that the row `t` is being processed under.
abbrev pub IsOwnedBy : ℕ → Task → Type 0
IsOwnedBy a t = (t.status ≡ processing) × (t.attempts ≡ a)

-- Why a caller with generation `a` may not change the row that it finds.
pub data Refuses (a : ℕ) : Option Task → TaskError → Type 0 where
  missing : Refuses a none not_found
  idle : (t : Task) → t.status ≢ processing → Refuses a (some t) invalid_transition
  outdated : (t : Task) → t.status ≡ processing → t.attempts ≢ a → Refuses a (some t) stale_claim

is_processing_iff :
    (s : TaskStatus)
    → (is_processing s ≡ true → s ≡ processing) × (is_processing s ≡ false → s ≢ processing)
is_processing_iff s = (λ h. ground arith, λ h e. ground arith)

pub check_claim-cases :
    (a : ℕ) (found : Option Task)
    → ((t : Task) × (found ≡ some t) × IsOwnedBy a t × (check_claim a found ≡ ok t))
      ⊎ ((e : TaskError) × Refuses a found e × (check_claim a found ≡ err e))
unfolding check_claim
check_claim-cases a none = inr (not_found, missing, refl)
check_claim-cases a (some t) = elim (Bool-cases (is_processing t.status)) [
  | inl p ↦ elim (Bool-cases (t.attempts == a)) [
    | inl q ↦
        inl (t, refl, ((is_processing_iff t.status).0 p, (==_iff t.attempts a).0 q), rw (p, q))
    | inr q ↦ inr (
      stale_claim,
      outdated t ((is_processing_iff t.status).0 p) (λ e. cc (q, (==_iff t.attempts a).1 e)),
      rw (p, q),
    )
  ]
  | inr p ↦ inr (invalid_transition, idle t ((is_processing_iff t.status).1 p), rw p)
]

-- The table has the row `t` under `k`, and every other row as before.
abbrev pub Writes : Uuid → Task → List Task → List Task → Type 0
Writes k t tasks table =
    (i : Uuid) → find_task i table ≡ (if k == i then some t else find_task i tasks)

pub update_row-Writes :
    (f : Task → Task) (keeps : (t : Task) → (f t).id ≡ t.id) (k : Uuid) (tasks : List Task)
    (t : Task)
    → find_task k tasks ≡ some t
    → Writes k (f t) tasks (update_row task_key k f tasks)
update_row-Writes f keeps k tasks t found i =
    ground (arith, found, find_row-update_row task_key f keeps k i tasks)

module _ (k : Uuid) (a : ℕ) (now : ℤ) (tasks : List Task) where
  abbrev pub CompletesOrRefuses : Type 0
  CompletesOrRefuses =
      ((1 ≤ a)
        × (t : Task) × (find_task k tasks ≡ some t)
        × IsOwnedBy a t
        × (table : List Task) × (mark_indexing_task_completed k a now tasks ≡ ok table)
        × Writes k
            (record t {
              status = completed;
              completed_at = some now;
              last_error = none;
              updated_at = now;
            })
            tasks table)
      ⊎ ((1 ≤ a)
          × (e : TaskError) × Refuses a (find_task k tasks) e
          × (mark_indexing_task_completed k a now tasks ≡ err e))
      ⊎ ((a < 1) × (mark_indexing_task_completed k a now tasks ≡ err invalid_value))

  -- With a generation of at least 1, the owner of the claim completes the task and any other call
  -- is refused with the error that says why; a smaller generation raises ValueError.
  pub mark_indexing_task_completed_lem : CompletesOrRefuses
  unfolding mark_indexing_task_completed
  mark_indexing_task_completed_lem = elim (Bool-cases (ltb a 1)) [
    | inl small ↦ inr (inr (ground arith, rw small))
    | inr valid ↦ elim (check_claim-cases a (find_task k tasks)) [
      | inl (t, found, owned, loaded) ↦ inl (
        ground arith,
        t,
        found,
        owned,
        update_row task_key k (completed_row now) tasks,
        rw (valid, loaded),
        unfold completed_row in update_row-Writes (completed_row now) (λ r. refl) k tasks t found,
      )
      | inr (e, refusal, refused) ↦ inr (inl (ground arith, e, refusal, rw (valid, refused)))
    ]
  ]

-- The row after a failed attempt at `now`: retried after the delay while attempts are left.
abbrev pub failed_row : Text → ℕ → ℤ → ℤ → Task → Task
failed_row message max_attempts delay now t =
    if ltb t.attempts max_attempts
    then record t {
      status = pending;
      available_at = now +ℤ delay;
      started_at = none;
      completed_at = none;
      last_error = some (sanitize_error_message message);
      updated_at = now;
    }
    else record t {
      status = failed;
      completed_at = some now;
      last_error = some (sanitize_error_message message);
      updated_at = now;
    }

pub failed_row_as_self :
    (message : Text) (max_attempts : ℕ) (delay now : ℤ) (t : Task)
    → failed_row_as
        (decide_failure_outcome t.attempts max_attempts)
        (sanitize_error_message message)
        delay
        now
        t
      ≡ failed_row message max_attempts delay now t
unfolding failed_row_as decide_failure_outcome
failed_row_as_self message max_attempts delay now t = ground arith

pub failed_row_as-key :
    (s : TaskStatus) (error : Text) (delay now : ℤ) (t : Task)
    → (failed_row_as s error delay now t).id ≡ t.id
unfolding failed_row_as
failed_row_as-key s error delay now t = ground arith

pub failed_row-status :
    (message : Text) (max_attempts : ℕ) (delay now : ℤ) (t : Task)
    → (failed_row message max_attempts delay now t).status
      ≡ decide_failure_outcome t.attempts max_attempts
unfolding decide_failure_outcome
failed_row-status message max_attempts delay now t = ground arith

-- The arguments that `mark_indexing_task_failed` accepts.
abbrev pub IsFailureInput : ℕ → ℕ → ℤ → Type 0
IsFailureInput a max_attempts delay = (1 ≤ a) × (1 ≤ max_attempts) × (pos 0 ≤ℤ delay)

module _ (k : Uuid) (a : ℕ) (message : Text) (max_attempts : ℕ) (delay now : ℤ)
    (tasks : List Task) where
  abbrev call : Result TaskError (TaskStatus × List Task)
  call = mark_indexing_task_failed k a message max_attempts delay now tasks

  abbrev pub FailsOrRefuses : Type 0
  FailsOrRefuses =
      (IsFailureInput a max_attempts delay
        × (t : Task) × (find_task k tasks ≡ some t)
        × IsOwnedBy a t
        × (table : List Task) × (call
            ≡ ok ((failed_row message max_attempts delay now t).status, table))
        × Writes k (failed_row message max_attempts delay now t) tasks table)
      ⊎ (IsFailureInput a max_attempts delay
          × (e : TaskError) × Refuses a (find_task k tasks) e
          × (call ≡ err e))
      ⊎ (¬ (IsFailureInput a max_attempts delay) × (call ≡ err invalid_value))

  -- With arguments in range, the owner of the claim records the failure and is told the status of
  -- the row, and any other call is refused with the error that says why; other arguments raise
  -- ValueError.
  pub mark_indexing_task_failed_lem : FailsOrRefuses
  unfolding mark_indexing_task_failed
  mark_indexing_task_failed_lem = elim (Bool-cases (ltb a 1)) [
    | inl small ↦ inr (inr (λ valid. absurd (ground arith), rw small))
    | inr va ↦ elim (Bool-cases (ltb max_attempts 1)) [
      | inl small ↦ inr (inr (λ valid. absurd (ground arith), rw (va, small)))
      | inr vm ↦ elim (Bool-cases (ltb_ℤ delay (pos 0))) [
        | inl negative ↦ inr (inr (λ valid. absurd (ground arith), rw (va, vm, negative)))
        | inr vd ↦
            let valid : IsFailureInput a max_attempts delay = ground arith in
            elim (check_claim-cases a (find_task k tasks)) [
              | inl (t, found, owned, loaded) ↦
                  let write : Task → Task =
                    failed_row_as (decide_failure_outcome t.attempts max_attempts)
                      (sanitize_error_message message) delay now in
                  inl (
                    valid,
                    t,
                    found,
                    owned,
                    update_row task_key k write tasks,
                    rw (va, vm, vd, loaded, failed_row-status message max_attempts delay now t),
                    rw (← failed_row_as_self message max_attempts delay now t) (
                        update_row-Writes write
                          (failed_row_as-key (decide_failure_outcome t.attempts max_attempts)
                            (sanitize_error_message message) delay now)
                          k tasks t found),
                  )
              | inr (e, refusal, refused) ↦ inr (inl (valid, e, refusal, rw (va, vm, vd, refused)))
            ]
      ]
    ]
  ]
