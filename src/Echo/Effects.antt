-- ===== src/Echo/Effects.antt =====
-- What a run of apps/worker/jobs/whatsapp_echo.py leaves of its job, and which message it sends.
use talap_ml.Common.{
  ◌≡◌, refl, subst, ◌⊎◌, inl, inr, none, some, List, [], ◌∷◌, ◌++◌, Option-cases, Result-cases, ok,
  err,
}
use talap_ml.Common.Text.{Text}
use talap_ml.Common.Table.{find_row}
use talap_ml.Jobs.{
  Job, JobStatus, ClaimedJob, claim_one_message_processing_job, complete_message_processing_job,
  release_message_processing_job, fail_message_processing_job,
}
use talap_ml.Echo.{EchoResult, sent}
use talap_ml.Echo.World.{World, Surroundings, Run, InboundMessage}
use talap_ml.Echo.Worker.{
  message_key, complete_as, release_as, fail_job, send_and_complete, unanswered, put_back,
  failed_result, process_claimed, process_one_whatsapp_echo_job,
}
use talap_ml.Echo.Paths.{
  Records, nothing, selection, displayed_set, demand, PathOf, raises, completes, releases, fails,
  answers, process_message-PathOf,
}

-- The calls of `send_text` went from `before` to `after` with no message that Meta accepted.
abbrev pub NothingAccepted : Surroundings → List (Text × Text) → List (Text × Text) → Type 0
NothingAccepted w before after =
    (after ≡ before)
    ⊎ ((to : Text) × (body : Text) × (w.send_text to body ≡ none)
        × (after ≡ before ++ (to, body) ∷ []))

-- How a run ends that claimed its job in the table `jobs`, with what it returns and leaves.
pub data Ends (w : Surroundings) (claimed : ClaimedJob) (jobs : List Job)
    (sends : List (Text × Text)) : EchoResult → World → Type 0 where
  answered :
      (to body external_id : Text) (after : World)
      → w.send_text to body ≡ some external_id
      → after.sends ≡ sends ++ (to, body) ∷ []
      → complete_message_processing_job claimed.job_id claimed.attempts w.final_time jobs
        ≡ ok after.jobs
      → Ends w claimed jobs sends
          (record {
            outcome = sent;
            job_id = some claimed.job_id;
            sent_external_message_id = some external_id;
          })
          after
  not_answered :
      (after : World)
      → after.sends ≡ sends
      → complete_message_processing_job claimed.job_id claimed.attempts w.final_time jobs
        ≡ ok after.jobs
      → Ends w claimed jobs sends (unanswered w claimed) after
  given_back :
      (after : World)
      → after.sends ≡ sends
      → release_message_processing_job claimed.job_id claimed.attempts w.final_time jobs
        ≡ ok after.jobs
      → Ends w claimed jobs sends (put_back w claimed) after
  attempt_failed :
      (after : World) (message : Text) (status : JobStatus)
      → NothingAccepted w sends after.sends
      → fail_message_processing_job claimed.job_id claimed.attempts message w.max_attempts
          w.retry_delay w.final_time jobs
        ≡ ok (status, after.jobs)
      → Ends w claimed jobs sends (failed_result claimed.job_id status) after

-- A run that raises leaves the table of jobs as the claim left it.
abbrev pub HasEnd :
    Surroundings → ClaimedJob → List Job → List (Text × Text) → Run EchoResult → Type 0
HasEnd w claimed jobs sends (ok r, after) = Ends w claimed jobs sends r after
HasEnd w claimed jobs sends (err e, after) = after.jobs ≡ jobs

module _ (w : Surroundings) (claimed : ClaimedJob) where
  complete_as-end :
      (world : World)
      → HasEnd w claimed world.jobs world.sends (complete_as w (unanswered w claimed) claimed world)
  unfolding complete_as
  complete_as-end world =
      elim (Result-cases
        (complete_message_processing_job claimed.job_id claimed.attempts w.final_time world.jobs)) [
          | inl (jobs, e) ↦ rw (e, complete_as) (not_answered (record world { jobs = jobs }) refl e)
          | inr (_, e) ↦ rw (e, complete_as) refl
        ]

  release_as-end :
      (world : World)
      → HasEnd w claimed world.jobs world.sends (release_as w (put_back w claimed) claimed world)
  unfolding release_as
  release_as-end world =
      elim (Result-cases
        (release_message_processing_job claimed.job_id claimed.attempts w.final_time world.jobs)) [
          | inl (jobs, e) ↦ rw (e, release_as) (given_back (record world { jobs = jobs }) refl e)
          | inr (_, e) ↦ rw (e, release_as) refl
        ]

  fail_job-end :
      (message : Text) (sends : List (Text × Text)) (world : World)
      → NothingAccepted w sends world.sends
      → HasEnd w claimed world.jobs sends (fail_job w message claimed world)
  unfolding fail_job
  fail_job-end message sends world quiet =
      elim (Result-cases (
        fail_message_processing_job claimed.job_id claimed.attempts message w.max_attempts
          w.retry_delay w.final_time world.jobs)) [
            | inl (moved, e) ↦
                rw (e, fail_job)
                  (attempt_failed (record world { jobs = moved.1 }) message moved.0 quiet e)
            | inr (_, e) ↦ rw (e, fail_job) refl
          ]

  send_and_complete-end :
      (message : InboundMessage) (body : Text) (world : World)
      → HasEnd w claimed world.jobs world.sends (send_and_complete w claimed message body world)
  unfolding send_and_complete complete_as
  send_and_complete-end message body world =
      let to = message.external_user_id in
      elim (Option-cases (w.send_text to body)) [
        | inl e ↦ rw (e, send_and_complete) (fail_job-end _ world.sends _ (inr (to, body, e, refl)))
        | inr (id, e) ↦
            elim (Result-cases (
              complete_message_processing_job claimed.job_id claimed.attempts w.final_time
                world.jobs)) [
                  | inl (jobs, f) ↦
                      rw (e, send_and_complete, f, complete_as) (answered to body id _ e refl f)
                  | inr (_, f) ↦ rw (e, send_and_complete, f, complete_as) refl
                ]
      ]

  same_world :
      (world recorded : World)
      → Records w world recorded
      → (recorded.jobs ≡ world.jobs) × (recorded.sends ≡ world.sends)
  same_world world recorded nothing = (refl, refl)
  same_world world recorded (selection _ _ _) = (refl, refl)
  same_world world recorded (displayed_set _ _ _ _) = (refl, refl)
  same_world world recorded (demand _ _ _ _) = (refl, refl)

  end_of_path :
      {U : Type 0} (world : World) (run : Run EchoResult)
      → PathOf w claimed U world run
      → HasEnd w claimed world.jobs world.sends run
  end_of_path world run (raises e why) = refl
  end_of_path world run completes = complete_as-end world
  end_of_path world run releases = release_as-end world
  end_of_path world run (fails message) = fail_job-end message world.sends world (inl refl)
  end_of_path world run (answers message body recorded records) =
      let same = same_world world recorded records in
      subst (λ jobs. HasEnd w claimed jobs world.sends run) same.0
        (subst (λ sends. HasEnd w claimed recorded.jobs sends run) same.1
          (send_and_complete-end message body recorded))

-- A run that claims a job makes one transition of it under its own claim and sends at most one
-- message: sent means one accepted message and a completed job, no response a completed job,
-- released a released job, a failure no accepted message and a failed attempt with the status
-- that the outcome names; a run that raises leaves the table of jobs as it is after the claim.
pub process_one_end :
    (w : Surroundings) (world : World) (claimed : ClaimedJob) (jobs : List Job)
    → claim_one_message_processing_job w.locked w.claim_time w.stale_after world.jobs
      ≡ (some claimed, jobs)
    → HasEnd w claimed (w.others jobs) world.sends (process_one_whatsapp_echo_job w world)
unfolding process_one_whatsapp_echo_job process_claimed
process_one_end w world claimed jobs claim =
    rw (claim, process_one_whatsapp_echo_job)
      (end_of_path w claimed (record world { jobs = w.others jobs }) _
        (process_message-PathOf w claimed (record world { jobs = w.others jobs })
          (find_row message_key claimed.message_id world.messages)))
