-- ===== src/Extraction.antt =====
-- talap/ai/customer_request.py: the extraction of a customer request by a language model, with one
-- repair of an invalid answer.
pub mod Validation
pub mod Prompts
pub mod Requests
mod Examples
use talap_ml.Common.{
  ℕ, ◌+◌, Bool, true, false, ◌&&◌, not, Option, none, some, List, [], ◌∷◌, ◌++◌, leb, take,
  if◌then◌else◌, Result, ok, err, ◌>>=◌,
}
use talap_ml.Common.Int.{ℤ}
use talap_ml.Common.Text.{Text, text, is_empty, strip}
use talap_ml.Common.Json.{
  Json, null, object, array, string, Items, cons, Fields, get, as_object, as_string,
}
use talap_ml.Recommendations.{CustomerRequest}
use talap_ml.Echo.World.{Extraction, extracted, extraction_error}
use talap_ml.Common.Pydantic.{Validated}
use talap_ml.Extraction.Validation.{customer_request}
use talap_ml.Extraction.Prompts.{system_prompt, repair_system_prompt}

-- CustomerRequestConfigurationError and CustomerRequestExtractionError, with their messages
pub data ExtractionError : Type 0 where
  configuration_failure extraction_failure : Text → ExtractionError

abbrev pub Extracted : Type 0 → Type 0
Extracted A = Result ExtractionError A

pub record Message : Type 0 where
  pub role : Text
  pub content : Text

-- what a POST comes to: an HTTPError, or a status and a body, none where it is not JSON
pub data Exchange : Type 0 where
  http_error : Exchange
  responded : ℕ → Option Json → Exchange

abbrev pub max_invalid_output_chars : ℕ
max_invalid_output_chars = 1000

abbrev pub malformed : ExtractionError
malformed = extraction_failure (text "DeepSeek response was malformed.")

-- the first choice of a response
abbrev pub first_choice : Json → Extracted Json
first_choice (array (cons choice rest)) = ok choice
first_choice _ = err malformed

unfoldable pub content_of : Json → Extracted Text
content_of body = do
  response ← as_object malformed body
  choice ← first_choice (get (text "choices") response)
  fields ← as_object malformed choice
  message ← as_object malformed (get (text "message") fields)
  content ← as_string malformed (get (text "content") message)
  if is_empty (strip content) then err malformed else ok content

unfoldable pub fetch_content : Exchange → Extracted Text
fetch_content http_error = err (extraction_failure (text "DeepSeek request failed."))
fetch_content (responded status body) =
    if leb 400 status
    then err (configuration_failure (text "DeepSeek request was rejected."))
    else elim body [ none ↦ err malformed | some json ↦ content_of json ]

abbrev pub extraction_messages : Text → List Message
extraction_messages customer_text =
    record { role = text "system"; content = system_prompt }
    ∷ record { role = text "user"; content = customer_text }
    ∷ []

abbrev pub newline : Text
newline = 10 ∷ []

unfoldable pub repair_messages : Text → Text → List Message
repair_messages customer_text invalid_content =
    record { role = text "system"; content = repair_system_prompt }
    ∷ record {
      role = text "user";
      content =
          text "Customer text:"
          ++ newline
          ++ customer_text
          ++ newline
          ++ newline
          ++ text "Invalid previous output (truncated):"
          ++ newline
          ++ take max_invalid_output_chars invalid_content
          ++ newline
          ++ newline
          ++ text "Return corrected JSON only.";
    }
    ∷ []

-- the argument and the setting of the API key
pub record Keys : Type 0 where
  pub argument : Option Text
  pub setting : Option Text

unfoldable pub resolved_key : Keys → Option Text
resolved_key keys = elim keys.argument [
  | none ↦ keys.setting
  | some key ↦ if is_empty (strip key) then keys.setting else some key
]

-- the result, and the messages of each request that was made
abbrev pub Run : Type 0
Run = Extracted CustomerRequest × List (List Message)

-- `json.loads`, the conversion of a value to `int`, and the model's answer to the messages
pub record Services : Type 0 where
  pub loads : Text → Option Json
  pub lax_int : Json → Option ℤ
  pub chat : List Message → Exchange

module _ (services : Services) where
  unfoldable pub parse_and_validate : Text → Validated CustomerRequest
  parse_and_validate content = elim (services.loads content) [
    | some (object fields) ↦ customer_request services.lax_int fields
    | _ ↦ err tt
  ]

  -- the answer to the repair
  unfoldable pub repaired : Extracted Text → Extracted CustomerRequest
  repaired (err e) = err e
  repaired (ok content) = elim (parse_and_validate content) [
    | ok request ↦ ok request
    | err _ ↦ err (extraction_failure (text "Failed to extract a valid customer request."))
  ]

  unfoldable pub request_and_repair : Text → Run
  request_and_repair customer_text =
      let messages = extraction_messages customer_text in
      elim (fetch_content (services.chat messages)) [
        | err e ↦ (err e, messages ∷ [])
        | ok content ↦ elim (parse_and_validate content) [
          | ok request ↦ (ok request, messages ∷ [])
          | err _ ↦
              let repair = repair_messages customer_text content in
              (repaired (fetch_content (services.chat repair)), messages ∷ repair ∷ [])
        ]
      ]

  unfoldable pub extract_customer_request : Keys → Text → Run
  extract_customer_request keys customer_text =
      if is_empty (strip customer_text)
      then (err (extraction_failure (text "customer text must be non-blank.")), [])
      else elim (resolved_key keys) [
        | none ↦ (err (configuration_failure (text "DeepSeek API key is not configured.")), [])
        | some key ↦ request_and_repair customer_text
      ]

-- the result as the WhatsApp worker reads it
abbrev pub as_extraction : Run → Extraction
as_extraction (ok request, requests) = extracted request
as_extraction (err e, requests) = extraction_error
