-- ===== src/Api/Whatsapp/Examples.antt =====
-- One signed webhook with a message and a status, for apps/api/routes/whatsapp_webhook.py and the
-- normalizer of talap/channels/whatsapp.
use talap_ml.Common.{
  ℕ, ◌+◌, ◌≡◌, ◌≢◌, refl, ◌⊎◌, true, ◌&&◌, Option, none, some, [], ◌∷◌, ◌++◌, ok, if◌then◌else◌,
  ◌-◌, ◌<◌, arith, leb,
}
use talap_ml.Common.Int.{pos, negsuc}
use talap_ml.Common.Text.{is_surrogate, Text, text, text_eq, strip}
use talap_ml.Common.Decimal.{UnicodeDigits}
use talap_ml.Common.Json.{Json, integer, object, array, string, nil, cons, Fields, end, field}
use talap_ml.Ingestion.Rows.{
  InboundDatabase, Sources, NormalizedInboundMessage, DeliveryStatusEvent,
}
use talap_ml.Common.Pydantic.{str_value, is_white_space}
use talap_ml.Channels.Inbound.{
  is_hex_digit, normalized_inbound_message, identifier, has_valid_body, blank_to_none,
}
use talap_ml.Channels.Whatsapp.Normalizer.{
  NormalizationResult, normalize_whatsapp_webhook, normalize_entries, normalize_changes,
  normalize_change, normalize_value, normalize_messages, normalize_statuses,
  normalize_customer_message, normalize_status, normalize_body, normalize_text, build_message,
  required_string, non_blank, resolve_received_at, extract_error_codes, extract_error_codes_from,
}
use talap_ml.Api.Whatsapp.{
  Reply, Settings, Codecs, received, whatsapp_webhook, webhook_of, receive_body, receive_payload,
}
use talap_ml.Api.Whatsapp.Redelivery.{
  normalized-validates, whatsapp_webhook-redelivered, negative_code_refused,
}
use talap_ml.Channels.Whatsapp.Normalizer.Times.{untimed, normalize_whatsapp_webhook-Alike}
use talap_ml.Common.Alike.{Alike}
use talap_ml.Common.Table.{find_row}
use talap_ml.Channels.Whatsapp.Security.{verify_whatsapp_signature, signature_digest, remove_prefix}
use talap_ml.Ingestion.Inserts.{
  deduplicate_messages_from, deduplicate_statuses_from, insert_messages, insert_processing_jobs,
  insert_statuses, payload_sha256, whatsapp_status_fingerprint,
}
use talap_ml.Ingestion.{
  validate_inputs, check_connection, ingest_event, ingest_in_transaction, ingest_new,
  ingest_normalized_webhook,
}
use talap_ml.Api.Whatsapp.Authentic.{IsSigned, whatsapp_webhook-IsSigned}

abbrev message : Fields
message = field (text "id") (string (text "wamid.1")) (
    field (text "from") (string (text "7701")) (
      field (text "type") (string (text "text"))
        (field (text "text") (object (field (text "body") (string (text " desk ")) end)) end)))

abbrev status : Fields
status = field (text "id") (string (text "wamid.0")) (
    field (text "recipient_id") (string (text "7701"))
      (field (text "status") (string (text "warned")) end))

abbrev change : Fields
change = field (text "field") (string (text "messages")) (
    field (text "value")
      (object (
        field (text "messages") (array (cons (object message) nil))
          (field (text "statuses") (array (cons (object status) nil)) end)))
      end)

abbrev payload : Json
payload = object (
    field (text "object") (string (text "whatsapp_business_account")) (
      field (text "entry")
        (array (cons (object (field (text "changes") (array (cons (object change) nil)) end)) nil))
        end))

abbrev expected_message : NormalizedInboundMessage
expected_message = record {
  business_scope = text "talap_global";
  channel = text "whatsapp";
  external_chat_id = text "7701";
  external_user_id = text "7701";
  external_message_id = text "wamid.1";
  message_type = text "text";
  text = some (text "desk");
  media = none;
  received_at = pos 8;
}

abbrev expected_status : DeliveryStatusEvent
expected_status = record {
  external_message_id = text "wamid.0";
  recipient_id = text "7701";
  status = text "unknown";
  occurred_at = pos 8;
  error_codes = [];
}

abbrev expected : NormalizationResult
expected = record { messages = expected_message ∷ []; statuses = expected_status ∷ [] }

module _ (unicode : UnicodeDigits) where
  normalizes : normalize_whatsapp_webhook unicode payload (pos 8) ≡ ok expected
  unfolding normalize_whatsapp_webhook normalize_entries normalize_changes normalize_change
      normalize_value normalize_messages normalize_statuses normalize_customer_message
      normalize_status normalize_body normalize_text build_message required_string non_blank
      resolve_received_at extract_error_codes normalized_inbound_message identifier has_valid_body
      blank_to_none strip str_value is_surrogate is_white_space text_eq
  normalizes = refl

-- the digits of ASCII alone
is_digit_of_ascii : (d : ℕ) → d < 10 → (leb 48 (48 + d) && leb (48 + d) 57) ≡ true
is_digit_of_ascii d small = ground arith

decimal_of_ascii :
    (d : ℕ)
    → d < 10
    → (if leb 48 (48 + d) && leb (48 + d) 57 then some (48 + d - 48) else none) ≡ some d
decimal_of_ascii d small = ground arith

abbrev ascii : UnicodeDigits
ascii = record {
  is_digit = λ c. leb 48 c && leb c 57;
  decimal = λ c. if leb 48 c && leb c 57 then some (c - 48) else none;
  ascii_is_digit = is_digit_of_ascii;
  ascii_decimal = decimal_of_ascii;
}

abbrev digest : Text
digest = text "0123456789abcdef0123456789abcdef0123456789abcdef0123456789abcdef"

abbrev codecs : Codecs
codecs = record {
  hmac_sha256 = λ secret body. digest;
  loads = λ body. some payload;
  dumps = λ json. some (text "{}");
}

abbrev sources : Sources
sources = record {
  sha256 = λ bytes. bytes;
  canonical_json = λ external recipient status at codes. external;
  event_id = 50;
  message_ids = λ index. 100 + index;
  job_ids = λ index. 200 + index;
  status_ids = λ index. 300 + index;
  now = pos 9;
}

abbrev settings : Settings
settings = record {
  verify_token = some (text "token");
  app_secret = some (text "secret");
  connection_id = some 1;
}

abbrev database : InboundDatabase
database = record {
  connections = record { id = 1; channel = text "whatsapp"; active = true } ∷ [];
  events = [];
  messages = [];
  jobs = [];
  statuses = [];
}

abbrev header : Option Text
header = some (text "sha256=" ++ digest)

abbrev run : Reply × InboundDatabase
run = whatsapp_webhook codecs ascii sources settings header (text "{}") (pos 8) database

stores : run ≡ (received, run.1)
unfolding whatsapp_webhook verify_whatsapp_signature signature_digest remove_prefix is_hex_digit
    text_eq receive_body receive_payload normalize_whatsapp_webhook normalize_entries
    normalize_changes normalize_change normalize_value normalize_messages normalize_statuses
    normalize_customer_message normalize_status normalize_body normalize_text build_message
    required_string non_blank resolve_received_at extract_error_codes normalized_inbound_message
    identifier has_valid_body blank_to_none strip str_value is_surrogate is_white_space find_row
    deduplicate_messages_from deduplicate_statuses_from insert_messages insert_processing_jobs
    insert_statuses payload_sha256 whatsapp_status_fingerprint check_connection ingest_event
    ingest_in_transaction ingest_new ingest_normalized_webhook validate_inputs
stores = refl

whatsapp_webhook-IsSigned_example :
    (run.1 ≡ database)
    ⊎ (IsSigned codecs ascii sources settings header (text "{}") × (run.0 ≡ received))
whatsapp_webhook-IsSigned_example =
    whatsapp_webhook-IsSigned codecs ascii sources settings header (text "{}") (pos 8) database

normalized-validates_example :
    validate_inputs (webhook_of codecs ascii sources 1 (text "{}") payload (pos 8) expected)
    ≡ ok (text "{}", pos 8)
normalized-validates_example =
    normalized-validates codecs ascii sources 1 (text "{}") payload (pos 8) expected (text "{}")
      (normalizes ascii) refl refl

whatsapp_webhook-redelivered_example :
    whatsapp_webhook codecs ascii sources settings header (text "{}") (pos 11) run.1
    ≡ (received, run.1)
whatsapp_webhook-redelivered_example =
    whatsapp_webhook-redelivered codecs ascii sources settings header (text "{}") (pos 8) (pos 11)
      database run.1 stores

normalize_whatsapp_webhook-Alike_example :
    Alike untimed
      (normalize_whatsapp_webhook ascii payload (pos 8))
      (normalize_whatsapp_webhook ascii payload (pos 11))
normalize_whatsapp_webhook-Alike_example =
    normalize_whatsapp_webhook-Alike ascii (pos 8) (pos 11) payload

abbrev negative_status : Fields
negative_status = field (text "id") (string (text "wamid.0")) (
    field (text "recipient_id") (string (text "7701")) (
      field (text "status") (string (text "failed")) (
        field (text "errors")
          (array (cons (object (field (text "code") (integer (negsuc 0)) end)) nil)) end)))

abbrev negative_payload : Json
negative_payload = object (
    field (text "object") (string (text "whatsapp_business_account")) (
      field (text "entry")
        (array (
          cons
            (object (
              field (text "changes")
                (array (
                  cons
                    (object (
                      field (text "field") (string (text "messages")) (
                        field (text "value")
                          (object (
                            field (text "messages") (array (cons (object message) nil)) (
                              field (text "statuses") (array (cons (object negative_status) nil))
                                end)))
                          end)))
                    nil))
                end))
            nil))
        end))

abbrev negative_result : NormalizationResult
negative_result = record {
  messages = expected_message ∷ [];
  statuses = record expected_status { status = text "failed"; error_codes = negsuc 0 ∷ [] } ∷ [];
}

normalizes_negative : normalize_whatsapp_webhook ascii negative_payload (pos 8) ≡ ok negative_result
unfolding normalize_whatsapp_webhook normalize_entries normalize_changes normalize_change
    normalize_value normalize_messages normalize_statuses normalize_customer_message
    normalize_status normalize_body normalize_text build_message required_string non_blank
    resolve_received_at extract_error_codes extract_error_codes_from normalized_inbound_message
    identifier has_valid_body blank_to_none strip str_value is_surrogate is_white_space text_eq
normalizes_negative = refl

negative_code_refused_example :
    let answer =
      receive_payload codecs ascii sources 1 (text "{}") negative_payload (pos 8) database in
    (answer.0 ≢ received) × (answer.1 ≡ database)
negative_code_refused_example =
    negative_code_refused codecs ascii sources 1 (text "{}") negative_payload (pos 8) database
      negative_result normalizes_negative refl
