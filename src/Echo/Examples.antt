-- ===== src/Echo/Examples.antt =====
-- One reply to a displayed set, for apps/worker/jobs/whatsapp_echo.py.
use talap_ml.Common.{
  ℕ, ◌<◌, ◌+◌, ◌≤◌, ◌≡◌, refl, true, false, ◌||◌, ◌==◌, none, some, List, [], ◌∷◌, arith, length,
  if◌then◌else◌, leb, ◌&&◌, ◌-◌,
}
use talap_ml.Common.Int.{pos}
use talap_ml.Common.Text.{Text, text, text_eq, strip}
use talap_ml.Common.Decimal.{UnicodeDigits, isdigit, int_of, show, max_str_digits}
use talap_ml.Jobs.{Job, processing, ClaimedJob, claim_one_message_processing_job}
use talap_ml.Jobs.Examples.{waiting}
use talap_ml.Recommendations.{
  load_active_recommendation, snapshot_of, mark_recommendation_selected, manager_whatsapp_link,
}
use talap_ml.Recommendations.Active.{HasOneActive}
use talap_ml.Recommendations.Examples.{desk, rows, rows-HasOneActive}
use talap_ml.Echo.{format_selection_response, product_uuid, search_error}
use talap_ml.Echo.World.{World, Surroundings, InboundMessage, extraction_error}
use talap_ml.Echo.Worker.{
  message_key, send_and_complete, process_message, process_one_whatsapp_echo_job,
}
use talap_ml.Echo.Effects.{HasEnd, process_one_end}
use talap_ml.Echo.Sets.{process_one-HasOneActive}
use talap_ml.Echo.Selection.{selection_resolves}
use talap_ml.Echo.Paths.{FoundUnreadable}
use talap_ml.Common.Table.{find_row}

is_digit_of_ascii :
    (d : ℕ) → d < 10 → ((leb 48 (48 + d) && leb (48 + d) 57) || (48 + d) == 178) ≡ true
is_digit_of_ascii d small = ground arith

decimal_of_ascii :
    (d : ℕ)
    → d < 10
    → (if leb 48 (48 + d) && leb (48 + d) 57 then some (48 + d - 48) else none) ≡ some d
decimal_of_ascii d small = ground arith

-- the digits of ASCII, and the superscript two, which has no decimal value
abbrev digits : UnicodeDigits
digits = record {
  is_digit = λ c. (leb 48 c && leb c 57) || c == 178;
  decimal = λ c. if leb 48 c && leb c 57 then some (c - 48) else none;
  ascii_is_digit = is_digit_of_ascii;
  ascii_decimal = decimal_of_ascii;
}

abbrev surroundings : Surroundings
surroundings = record {
  unicode = digits;
  uuid_of = λ value. none;
  uuid_text = λ id. show id;
  extractor = λ body. extraction_error;
  search = λ request limit. search_error;
  send_text = λ to body. some (text "wamid.1");
  load_raises = false;
  mark_raises = false;
  store_raises = false;
  demand_raises = false;
  manager_setting = none;
  max_attempts = 3;
  retry_delay = pos 300;
  stale_after = pos 900;
  claim_time = pos 10;
  state_time = pos 11;
  final_time = pos 12;
  locked = λ k. false;
  others = λ jobs. jobs;
  new_state_id = 22;
  new_state_time = pos 11;
}

abbrev reply_of : Text → InboundMessage
reply_of body = record {
  id = 70;
  channel = text "whatsapp";
  external_user_id = text "77010000000";
  message_type = text "text";
  text = some body;
}

abbrev world : World
world = record {
  jobs = waiting ∷ [];
  messages = reply_of (text " 1 ") ∷ [];
  recommendations = rows;
  demands = [];
  sends = [];
}

abbrev claimed : ClaimedJob
claimed = record { job_id = 7; message_id = 70; attempts = 1; started_at = pos 10 }

abbrev claimed_jobs : List Job
claimed_jobs =
    record waiting {
      status = processing;
      attempts = 1;
      started_at = some (pos 10);
      updated_at = pos 10;
    }
    ∷ []

claims_waiting :
    claim_one_message_processing_job (λ k. false) (pos 10) (pos 900) (waiting ∷ [])
    ≡ (some claimed, claimed_jobs)
unfolding claim_one_message_processing_job
claims_waiting = refl

finds_shown :
    load_active_recommendation (text "whatsapp") (text "77010000000") rows
    ≡ some (record { state_id = 21; displayed_products = desk ∷ [] })
unfolding load_active_recommendation snapshot_of text_eq
finds_shown = refl

trims : strip (text " 1 ") ≡ show 1
unfolding strip show
trims = refl

short : length (show 1) ≤ max_str_digits
unfolding show
short = ground arith

first_number : 1 ≤ 1
first_number = omega arith

superscript_isdigit : isdigit digits (strip (text "²")) ≡ true
unfolding strip isdigit
superscript_isdigit = refl

superscript_unreadable : int_of digits (strip (text "²")) ≡ none
unfolding strip int_of
superscript_unreadable = refl

process_one_end_example :
    HasEnd surroundings claimed claimed_jobs [] (process_one_whatsapp_echo_job surroundings world)
process_one_end_example = process_one_end surroundings world claimed claimed_jobs claims_waiting

process_one-HasOneActive_example :
    HasOneActive (process_one_whatsapp_echo_job surroundings world).1.recommendations
process_one-HasOneActive_example = process_one-HasOneActive surroundings world rows-HasOneActive

selection_resolves_example :
    process_message surroundings claimed (some (reply_of (text " 1 "))) world
    ≡ send_and_complete surroundings claimed
        (reply_of (text " 1 "))
        (format_selection_response desk (manager_whatsapp_link none))
        (record world {
          recommendations =
              mark_recommendation_selected 21 1 (product_uuid (λ value. none) desk) (pos 11) rows;
        })
selection_resolves_example =
    selection_resolves surroundings claimed (reply_of (text " 1 ")) world refl refl
      (record { state_id = 21; displayed_products = desk ∷ [] }) 1 desk finds_shown trims short
      first_number first_number refl refl refl

abbrev unreadable_world : World
unreadable_world = record world { messages = reply_of (text "²") ∷ [] }

finds_unreadable : FoundUnreadable surroundings (find_row message_key 70 unreadable_world.messages)
unfolding find_row
finds_unreadable = record {
  whatsapp = refl;
  is_text = refl;
  digits = superscript_isdigit;
  unreadable = superscript_unreadable;
}
