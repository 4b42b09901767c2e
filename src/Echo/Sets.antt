-- ===== src/Echo/Sets.antt =====
-- The recommendation sets through a run of apps/worker/jobs/whatsapp_echo.py.
use talap_ml.Common.{
  inl, inr, Option, none, some, List, Result, ok, err, Option-cases, Result-cases,
}
use talap_ml.Common.Text.{Text}
use talap_ml.Common.Table.{find_row}
use talap_ml.Jobs.{Job, ClaimedJob, claim_one_message_processing_job, fail_message_processing_job}
use talap_ml.Recommendations.Active.{HasOneActive, store-HasOneActive, mark-HasOneActive}
use talap_ml.Echo.{EchoResult}
use talap_ml.Echo.World.{World, Surroundings, Run, InboundMessage}
use talap_ml.Echo.Worker.{
  message_key, complete_as, release_as, fail_job, ended, send_and_complete, process_claimed,
  process_one_whatsapp_echo_job,
}
use talap_ml.Echo.Paths.{
  Records, nothing, selection, displayed_set, demand, PathOf, raises, completes, releases, fails,
  answers, process_message-PathOf,
}

abbrev pub KeepsIndex : Run EchoResult → Type 0
KeepsIndex run = HasOneActive run.1.recommendations

ended-keeps :
    (r : EchoResult) (world : World) (jobs : Result _ (List Job))
    → HasOneActive world.recommendations
    → KeepsIndex (ended r world jobs)
ended-keeps r world (ok jobs) one = one
ended-keeps r world (err e) one = one

module _ (w : Surroundings) (claimed : ClaimedJob) where
  complete_as-keeps :
      (r : EchoResult) (world : World)
      → HasOneActive world.recommendations
      → KeepsIndex (complete_as w r claimed world)
  unfolding complete_as
  complete_as-keeps r world one = ended-keeps r world _ one

  release_as-keeps :
      (r : EchoResult) (world : World)
      → HasOneActive world.recommendations
      → KeepsIndex (release_as w r claimed world)
  unfolding release_as
  release_as-keeps r world one = ended-keeps r world _ one

  fail_job-keeps :
      (message : Text) (world : World)
      → HasOneActive world.recommendations
      → KeepsIndex (fail_job w message claimed world)
  unfolding fail_job
  fail_job-keeps message world one =
      elim (Result-cases (
        fail_message_processing_job claimed.job_id claimed.attempts message w.max_attempts
          w.retry_delay w.final_time world.jobs)) [
            | inl (moved, e) ↦ rw (e, fail_job) one
            | inr (_, e) ↦ rw (e, fail_job) one
          ]

  send_and_complete-keeps :
      (message : InboundMessage) (body : Text) (world : World)
      → HasOneActive world.recommendations
      → KeepsIndex (send_and_complete w claimed message body world)
  unfolding send_and_complete
  send_and_complete-keeps message body world one =
      elim (Option-cases (w.send_text message.external_user_id body)) [
        | inl e ↦ rw (e, send_and_complete) (fail_job-keeps _ _ one)
        | inr (_, e) ↦ rw (e, send_and_complete) (complete_as-keeps _ _ one)
      ]

  Records-keeps :
      (world recorded : World)
      → Records w world recorded
      → HasOneActive world.recommendations
      → HasOneActive recorded.recommendations
  Records-keeps world recorded nothing one = one
  Records-keeps world recorded (selection state_id index product) one =
      mark-HasOneActive state_id index product w.state_time world.recommendations one
  Records-keeps world recorded (displayed_set channel user displayed message_id) one =
      store-HasOneActive w.new_state_id w.new_state_time channel user displayed message_id
        w.state_time world.recommendations one
  Records-keeps world recorded (demand _ _ _ _) one = one

  path-keeps :
      {U : Type 0} (world : World) (run : Run EchoResult)
      → HasOneActive world.recommendations
      → PathOf w claimed U world run
      → KeepsIndex run
  path-keeps world run one (raises e why) = one
  path-keeps world run one completes = complete_as-keeps _ world one
  path-keeps world run one releases = release_as-keeps _ world one
  path-keeps world run one (fails message) = fail_job-keeps message world one
  path-keeps world run one (answers message body recorded records) =
      send_and_complete-keeps message body recorded (Records-keeps world recorded records one)

-- A run, whether it returns or raises, keeps at most one active recommendation set of each
-- customer.
pub process_one-HasOneActive :
    (w : Surroundings) (world : World)
    → HasOneActive world.recommendations
    → HasOneActive (process_one_whatsapp_echo_job w world).1.recommendations
unfolding process_one_whatsapp_echo_job process_claimed
process_one-HasOneActive w world one =
    of_claim (claim_one_message_processing_job w.locked w.claim_time w.stale_after world.jobs)
  where
    of_claim : (claim : Option ClaimedJob × List Job) → KeepsIndex (process_claimed w claim world)
    of_claim (none, jobs) = one
    of_claim (some claimed, jobs) =
        path-keeps w claimed (record world { jobs = w.others jobs }) _ one
          (process_message-PathOf w claimed (record world { jobs = w.others jobs })
            (find_row message_key claimed.message_id world.messages))
