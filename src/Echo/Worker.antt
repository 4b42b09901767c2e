-- ===== src/Echo/Worker.antt =====
-- apps/worker/jobs/whatsapp_echo.py: one run of the worker, from the claim to the outcome. A run is a
-- sequence of transactions, so a run that raises keeps what it committed before.
use talap_ml.Common.{
  ℕ, Bool, true, false, Option, none, some, List, [], ◌∷◌, ◌++◌, length, not, if◌then◌else◌, Result,
  ok, err,
}
use talap_ml.Common.Text.{Text, text, text_eq, strip}
use talap_ml.Common.Decimal.{int_of}
use talap_ml.Common.Table.{Uuid, find_row}
use talap_ml.Jobs.{
  Job, JobError, ClaimedJob, JobStatus, pending, claim_one_message_processing_job,
  complete_message_processing_job, release_message_processing_job, fail_message_processing_job,
}
use talap_ml.Recommendations.{
  CustomerRequest, Intent, product_search, ActiveRecommendation, is_numeric_selection,
  manager_whatsapp_link, unmet_demand_response, store_recommendation_set,
  load_active_recommendation, mark_recommendation_selected, persist_unmet_demand,
}
use talap_ml.Echo.{
  ProductSearchResult, SearchReply, replied, search_error, search_raises, recommendation_limit,
  format_recommendations, build_response_text, displayed_snapshots, product_uuid,
  format_selection_response, out_of_range_selection_text, selected_product, EchoResult, no_job,
  sent, no_response, released, retry_scheduled, failed,
}
use talap_ml.Echo.World.{
  InboundMessage, Extraction, World, Surroundings, Run, extracted, extraction_error,
  extractor_raises, job_error, value_error, other_error,
}

abbrev pub message_key : InboundMessage → Uuid
message_key m = m.id

abbrev pub ended : EchoResult → World → Result JobError (List Job) → Run EchoResult
ended r world (ok jobs) = (ok r, record world { jobs = jobs })
ended r world (err e) = (err (job_error e), world)

abbrev pub failed_result : Uuid → JobStatus → EchoResult
failed_result job_id pending = record {
  outcome = retry_scheduled;
  job_id = some job_id;
  sent_external_message_id = none;
}
failed_result job_id _ = record {
  outcome = failed;
  job_id = some job_id;
  sent_external_message_id = none;
}

abbrev pub failed_end : Uuid → World → Result JobError (JobStatus × List Job) → Run EchoResult
failed_end job_id world (ok moved) =
    (ok (failed_result job_id moved.0), record world { jobs = moved.1 })
failed_end job_id world (err e) = (err (job_error e), world)

abbrev pub body_of : Option Text → Text
body_of none = []
body_of (some s) = s

module _ (w : Surroundings) where
  unfoldable pub complete_as : EchoResult → ClaimedJob → World → Run EchoResult
  complete_as r claimed world =
      ended r world
        (complete_message_processing_job claimed.job_id claimed.attempts w.final_time world.jobs)

  unfoldable pub release_as : EchoResult → ClaimedJob → World → Run EchoResult
  release_as r claimed world =
      ended r world
        (release_message_processing_job claimed.job_id claimed.attempts w.final_time world.jobs)

  -- `_fail_job`
  unfoldable pub fail_job : Text → ClaimedJob → World → Run EchoResult
  fail_job error_message claimed world = failed_end claimed.job_id world (
      fail_message_processing_job claimed.job_id claimed.attempts error_message w.max_attempts
        w.retry_delay w.final_time world.jobs)

  -- the send at the end of both paths, and what follows it
  unfoldable pub send_and_complete : ClaimedJob → InboundMessage → Text → World → Run EchoResult
  send_and_complete claimed message response_text world =
      let world' = record world {
        sends = world.sends ++ (message.external_user_id, response_text) ∷ [];
      } in
      elim (w.send_text message.external_user_id response_text) [
        | none ↦ fail_job (text "WhatsApp send failed.") claimed world'
        | some external_id ↦
            complete_as
              (record {
                outcome = sent;
                job_id = some claimed.job_id;
                sent_external_message_id = some external_id;
              })
              claimed world'
      ]

  -- a reply `index` to the active set
  unfoldable pub answer_selection :
      ClaimedJob → InboundMessage → ActiveRecommendation → ℕ → World → Run EchoResult
  answer_selection claimed message shown index world =
      elim (selected_product index shown.displayed_products) [
        | none ↦
            send_and_complete claimed message
              (out_of_range_selection_text (length shown.displayed_products)) world
        | some displayed ↦
            if w.mark_raises
            then fail_job (text "Recommendation state access failed.") claimed world
            else send_and_complete claimed message
                (format_selection_response displayed (manager_whatsapp_link w.manager_setting))
                (record world {
                  recommendations =
                      mark_recommendation_selected shown.state_id index
                        (product_uuid w.uuid_of displayed) w.state_time world.recommendations;
                })
      ]

  -- the part of `_handle_selection` that follows its first test
  unfoldable pub handle_number :
      ClaimedJob → InboundMessage → Text → World → Option (Run EchoResult)
  handle_number claimed message trimmed_text world =
      if w.load_raises
      then some (fail_job (text "Recommendation state access failed.") claimed world)
      else elim (load_active_recommendation message.channel message.external_user_id
          world.recommendations) [
            | none ↦ none
            | some shown ↦ elim (int_of w.unicode trimmed_text) [
              | none ↦ some (err value_error, world)
              | some index ↦ some (answer_selection claimed message shown index world)
            ]
          ]

  -- none where the reply is not a selection, and then nothing has changed
  unfoldable pub handle_selection :
      ClaimedJob → InboundMessage → Text → World → Option (Run EchoResult)
  handle_selection claimed message trimmed_text world =
      elim (is_numeric_selection w.unicode trimmed_text) [
        | err _ ↦ some (err value_error, world)
        | ok false ↦ none
        | ok true ↦ handle_number claimed message trimmed_text world
      ]

  -- what the search found is stored and answered
  unfoldable pub answer_results :
      ClaimedJob
      → InboundMessage
      → CustomerRequest
      → List ProductSearchResult
      → World
      → Run EchoResult
  answer_results claimed message request [] world =
      if w.demand_raises
      then fail_job (text "Unmet demand storage failed.") claimed world
      else send_and_complete claimed message (unmet_demand_response request.language)
          (record world {
            demands =
                (persist_unmet_demand message.channel message.external_user_id message.id request
                  world.demands).1;
          })
  answer_results claimed message request (r ∷ rs) world =
      if w.store_raises
      then fail_job (text "Recommendation state storage failed.") claimed world
      else send_and_complete claimed message (format_recommendations (r ∷ rs)) (record world {
        recommendations =
            (store_recommendation_set w.new_state_id w.new_state_time message.channel
              message.external_user_id (displayed_snapshots w.uuid_text (r ∷ rs)) message.id
              w.state_time world.recommendations).1;
      })

  -- `request.intent == "product_search" and request.missing_field is None`
  abbrev pub is_search : Intent → Option Text → Bool
  is_search product_search none = true
  is_search _ _ = false

  -- a request without a search; a search would not be guarded here
  unfoldable pub answer_directly :
      ClaimedJob → InboundMessage → SearchReply Text → World → Run EchoResult
  answer_directly claimed message (replied response_text) world =
      send_and_complete claimed message response_text world
  answer_directly claimed message _ world = (err other_error, world)

  unfoldable pub answer_search :
      ClaimedJob
      → InboundMessage
      → CustomerRequest
      → SearchReply (List ProductSearchResult)
      → World
      → Run EchoResult
  answer_search claimed message request (replied results) world =
      answer_results claimed message request results world
  answer_search claimed message request search_error world =
      fail_job (text "Product search failed.") claimed world
  answer_search claimed message request search_raises world = (err other_error, world)

  unfoldable pub answer_extraction :
      ClaimedJob → InboundMessage → Extraction → World → Run EchoResult
  answer_extraction claimed message (extracted request) world =
      if is_search request.intent request.missing_field
      then answer_search claimed message request (w.search request recommendation_limit) world
      else answer_directly claimed message
          (build_response_text (λ (r : CustomerRequest). w.search r recommendation_limit) request)
          world
  answer_extraction claimed message extraction_error world =
      fail_job (text "Customer request extraction failed.") claimed world
  answer_extraction claimed message extractor_raises world = (err other_error, world)

  unfoldable pub answer_text : ClaimedJob → InboundMessage → World → Run EchoResult
  answer_text claimed message world =
      elim (handle_selection claimed message (strip (body_of message.text)) world) [
        | some run ↦ run
        | none ↦ answer_extraction claimed message (w.extractor (body_of message.text)) world
      ]

  abbrev pub unanswered : ClaimedJob → EchoResult
  unanswered claimed = record {
    outcome = no_response;
    job_id = some claimed.job_id;
    sent_external_message_id = none;
  }

  abbrev pub put_back : ClaimedJob → EchoResult
  put_back claimed = record {
    outcome = released;
    job_id = some claimed.job_id;
    sent_external_message_id = none;
  }

  unfoldable pub process_message : ClaimedJob → Option InboundMessage → World → Run EchoResult
  process_message claimed none world = complete_as (unanswered claimed) claimed world
  process_message claimed (some message) world =
      if not (text_eq message.channel (text "whatsapp"))
      then release_as (put_back claimed) claimed world
      else if text_eq message.message_type (text "text")
      then answer_text claimed message world
      else complete_as (unanswered claimed) claimed world

  unfoldable pub process_claimed : Option ClaimedJob × List Job → World → Run EchoResult
  process_claimed (none, jobs) world = (
    ok (record { outcome = no_job; job_id = none; sent_external_message_id = none }),
    record world { jobs = jobs },
  )
  process_claimed (some claimed, jobs) world =
      process_message claimed (find_row message_key claimed.message_id world.messages)
        (record world { jobs = w.others jobs })

  unfoldable pub process_one_whatsapp_echo_job : World → Run EchoResult
  process_one_whatsapp_echo_job world =
      process_claimed
        (claim_one_message_processing_job w.locked w.claim_time w.stale_after world.jobs) world
