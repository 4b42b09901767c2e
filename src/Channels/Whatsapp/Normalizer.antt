-- ===== src/Channels/Whatsapp/Normalizer.antt =====
-- talap/channels/whatsapp/normalizer.py: a Meta webhook payload to normalized messages and delivery
-- statuses. An error is a WhatsAppNormalizationError, with its message.
pub mod Messages
pub mod Accepted
pub mod Bodies
pub mod Times
use talap_ml.Common.{
  ℕ, ◌*◌, Bool, true, false, ◌&&◌, ◌||◌, not, Option, none, some, List, [], ◌∷◌, ◌++◌, any, leb,
  if◌then◌else◌, Result, ok, err, ◌>>=◌,
}
use talap_ml.Common.Int.{ℤ, pos}
use talap_ml.Common.Text.{Text, text, text_eq, is_empty, strip}
use talap_ml.Common.Decimal.{UnicodeDigits, isdigit, int_of}
use talap_ml.Common.Json.{
  Json, null, boolean, integer, real, string, array, object, Fields, elements, find_field, get,
  is_null, as_object, as_list, as_string,
}
use talap_ml.Ingestion.Rows.{MediaReference, NormalizedInboundMessage, DeliveryStatusEvent}
use talap_ml.Common.Pydantic.{Validated}
use talap_ml.Channels.Inbound.{media_reference, normalized_inbound_message}

abbrev pub Normalized : Type 0 → Type 0
Normalized A = Result Text A

pub record NormalizationResult : Type 0 where
  pub messages : List NormalizedInboundMessage
  pub statuses : List DeliveryStatusEvent

-- `except ValidationError`
abbrev pub or_raise : {A : Type 0} → Text → Validated A → Normalized A
or_raise message (ok a) = ok a
or_raise message (err _) = err message

unfoldable pub required_string : Json → Text → Normalized Text
required_string value label = do
  s ← as_string (label ++ text " must be a string.") value
  let stripped = strip s
  if is_empty stripped then err (label ++ text " is required.") else ok stripped

unfoldable pub optional_string : Json → Text → Normalized (Option Text)
optional_string null label = ok none
optional_string (string s) label = ok (some s)
optional_string _ label = err (label ++ text " must be a string.")

-- the last second of the year 9999
abbrev pub max_timestamp : ℕ
max_timestamp = 253402300799

abbrev pub second : ℕ
second = 1000000

unfoldable pub build_media : Text → Option Text → Option Text → Normalized MediaReference
build_media external_media_id mime_type checksum_sha256 =
    or_raise (text "WhatsApp message produced invalid media metadata.")
      (media_reference external_media_id mime_type checksum_sha256)

-- whom a message is from, its id and its time
pub record Envelope : Type 0 where
  pub sender : Text
  pub message_id : Text
  pub received : ℤ

unfoldable pub build_message :
    Envelope → Text → Option Text → Option MediaReference → Normalized NormalizedInboundMessage
build_message envelope message_type body media =
    or_raise (text "WhatsApp message violates the normalized inbound contract.") (
      normalized_inbound_message (text "whatsapp") envelope.sender envelope.sender
        envelope.message_id message_type body media envelope.received)

abbrev pub is_blank : Option Text → Bool
is_blank none = true
is_blank (some s) = is_empty (strip s)

unfoldable pub build_unsupported : Envelope → Normalized NormalizedInboundMessage
build_unsupported envelope = build_message envelope (text "unsupported") none none

unfoldable pub interactive_reply_message :
    Envelope → Option Text → Option Text → Normalized NormalizedInboundMessage
interactive_reply_message envelope reply_id title =
    if not (is_blank reply_id)
    then build_message envelope (text "text") reply_id none
    else if not (is_blank title)
    then build_message envelope (text "text") title none
    else build_unsupported envelope

unfoldable pub normalize_text : Envelope → Fields → Normalized NormalizedInboundMessage
normalize_text envelope message = do
  text_object ← as_object (text "text must be a mapping.") (get (text "text") message)
  body ← as_string (text "text.body must be a string.") (get (text "body") text_object)
  build_message envelope (text "text") (some body) none

unfoldable pub normalize_audio : Envelope → Fields → Normalized NormalizedInboundMessage
normalize_audio envelope message = do
  audio ← as_object (text "audio must be a mapping.") (get (text "audio") message)
  audio_id ← required_string (get (text "id") audio) (text "audio.id")
  mime_type ← optional_string (get (text "mime_type") audio) (text "audio.mime_type")
  sha256 ← optional_string (get (text "sha256") audio) (text "audio.sha256")
  media ← build_media audio_id mime_type sha256
  build_message envelope (text "voice") none (some media)

-- the reply object under `key`
unfoldable pub normalize_reply : Text → Envelope → Fields → Normalized NormalizedInboundMessage
normalize_reply key envelope interactive = do
  reply ← as_object (key ++ text " must be a mapping.") (get key interactive)
  reply_id ← optional_string (get (text "id") reply) (key ++ text ".id")
  title ← optional_string (get (text "title") reply) (key ++ text ".title")
  interactive_reply_message envelope reply_id title

unfoldable pub normalize_interactive : Envelope → Fields → Normalized NormalizedInboundMessage
normalize_interactive envelope message = do
  interactive ← as_object (text "interactive must be a mapping.") (get (text "interactive") message)
  interactive_type ←
      as_string (text "interactive.type must be a string.") (get (text "type") interactive)
  if text_eq interactive_type (text "button_reply")
      then normalize_reply (text "button_reply") envelope interactive
      else if text_eq interactive_type (text "list_reply")
      then normalize_reply (text "list_reply") envelope interactive
      else build_unsupported envelope

-- by the type of the message
unfoldable pub normalize_body : Text → Envelope → Fields → Normalized NormalizedInboundMessage
normalize_body message_type envelope message =
    if text_eq message_type (text "text")
    then normalize_text envelope message
    else if text_eq message_type (text "audio")
    then normalize_audio envelope message
    else if text_eq message_type (text "interactive")
    then normalize_interactive envelope message
    else build_unsupported envelope

-- `isinstance(value, str) and value.strip()`, stripped
unfoldable pub non_blank : Text → Json → Normalized Text
non_blank message value = do
  s ← as_string message value
  if is_empty (strip s) then err message else ok (strip s)

abbrev pub integer_code : Json → Normalized ℤ
integer_code null = err (text "status.errors code is required.")
integer_code (integer n) = ok n
integer_code _ = err (text "status.errors code must be an integer.")

unfoldable pub extract_error_codes_from : List Json → Normalized (List ℤ)
extract_error_codes_from [] = ok []
extract_error_codes_from (item ∷ items) = do
  entry ← as_object (text "status.errors entries must be mappings.") item
  code ← integer_code (get (text "code") entry)
  codes ← extract_error_codes_from items
  ok (code ∷ codes)

unfoldable pub extract_error_codes : Json → Normalized (List ℤ)
extract_error_codes null = ok []
extract_error_codes (array items) = extract_error_codes_from (elements items)
extract_error_codes _ = err (text "status.errors must be a list.")

abbrev pub is_known_status : Text → Bool
is_known_status s =
    any (text_eq s)
      (text "sent" ∷ text "delivered" ∷ text "read" ∷ text "failed" ∷ text "deleted" ∷ [])

-- `value == s`
abbrev pub is_string : Text → Json → Bool
is_string s (string t) = text_eq t s
is_string s _ = false

abbrev pub nothing : NormalizationResult
nothing = record { messages = []; statuses = [] }

abbrev pub append_results : NormalizationResult → NormalizationResult → NormalizationResult
append_results a b = record {
  messages = a.messages ++ b.messages;
  statuses = a.statuses ++ b.statuses;
}

-- an absent list has no items
abbrev pub list_or_none : Text → Json → Normalized (List Json)
list_or_none failure null = ok []
list_or_none failure (array items) = ok (elements items)
list_or_none failure _ = err failure

abbrev pub required_list : Text → Text → Json → Normalized (List Json)
required_list absent failure null = err absent
required_list absent failure (array items) = ok (elements items)
required_list absent failure _ = err failure

module _ (unicode : UnicodeDigits) where
  unfoldable pub parse_unix_seconds_timestamp : Json → Text → Normalized ℤ
  parse_unix_seconds_timestamp value label = do
    let failure = label ++ text " must be Unix seconds."
    s ← as_string failure value
    let raw = strip s
    if is_empty raw || not (isdigit unicode raw) then err failure else elim (int_of unicode raw) [
      | none ↦ err failure
      | some seconds ↦
          if leb seconds max_timestamp then ok (pos (seconds * second)) else err failure
    ]

  unfoldable pub resolve_received_at : Fields → Text → ℤ → Normalized ℤ
  resolve_received_at message label received_at = elim (find_field (text "timestamp") message) [
    | none ↦ ok received_at
    | some value ↦ parse_unix_seconds_timestamp value label
  ]

  unfoldable pub normalize_customer_message : Fields → ℤ → Normalized NormalizedInboundMessage
  normalize_customer_message message received_at = do
    message_id ← required_string (get (text "id") message) (text "message.id")
    sender ← required_string (get (text "from") message) (text "message.from")
    received ← resolve_received_at message (text "message.timestamp") received_at
    message_type ← non_blank (text "message.type is required.") (get (text "type") message)
    normalize_body message_type
        (record { sender = sender; message_id = message_id; received = received }) message

  unfoldable pub normalize_status : Fields → ℤ → Normalized DeliveryStatusEvent
  normalize_status status received_at = do
    status_id ← required_string (get (text "id") status) (text "status.id")
    recipient_id ← required_string (get (text "recipient_id") status) (text "status.recipient_id")
    status_value ← non_blank (text "status.status is required.") (get (text "status") status)
    let mapped = if is_known_status status_value then status_value else text "unknown"
    occurred_at ← resolve_received_at status (text "status.timestamp") received_at
    error_codes ← extract_error_codes (get (text "errors") status)
    ok (record {
      external_message_id = strip status_id;
      recipient_id = strip recipient_id;
      status = mapped;
      occurred_at = occurred_at;
      error_codes = error_codes;
    })

  -- the loops over messages and statuses, of mappings
  unfoldable pub normalize_messages : List Json → ℤ → Normalized (List NormalizedInboundMessage)
  normalize_messages [] received_at = ok []
  normalize_messages (raw ∷ raws) received_at = do
    fields ← as_object (text "message must be a mapping.") raw
    message ← normalize_customer_message fields received_at
    messages ← normalize_messages raws received_at
    ok (message ∷ messages)

  unfoldable pub normalize_statuses : List Json → ℤ → Normalized (List DeliveryStatusEvent)
  normalize_statuses [] received_at = ok []
  normalize_statuses (raw ∷ raws) received_at = do
    fields ← as_object (text "status must be a mapping.") raw
    status ← normalize_status fields received_at
    statuses ← normalize_statuses raws received_at
    ok (status ∷ statuses)

  -- the messages and the statuses of a change
  unfoldable pub normalize_value : Fields → ℤ → Normalized NormalizationResult
  normalize_value value received_at = do
    raw_messages ← list_or_none (text "messages must be a list.") (get (text "messages") value)
    messages ← normalize_messages raw_messages received_at
    raw_statuses ← list_or_none (text "statuses must be a list.") (get (text "statuses") value)
    statuses ← normalize_statuses raw_statuses received_at
    ok (record { messages = messages; statuses = statuses })

  unfoldable pub normalize_change : Json → ℤ → Normalized NormalizationResult
  normalize_change change received_at = do
    fields ← as_object (text "change must be a mapping.") change
    if is_string (text "messages") (get (text "field") fields)
        then (if is_null (get (text "value") fields)
            then err (text "change.value is required.")
            else (do
              value ← as_object (text "change.value must be a mapping.") (get (text "value") fields)
              normalize_value value received_at))
        else ok nothing

  unfoldable pub normalize_changes : List Json → ℤ → Normalized NormalizationResult
  normalize_changes [] received_at = ok nothing
  normalize_changes (change ∷ changes) received_at = do
    head ← normalize_change change received_at
    rest ← normalize_changes changes received_at
    ok (append_results head rest)

  unfoldable pub normalize_entries : List Json → ℤ → Normalized NormalizationResult
  normalize_entries [] received_at = ok nothing
  normalize_entries (entry ∷ entries) received_at = do
    fields ← as_object (text "entry items must be mappings.") entry
    changes ←
        required_list (text "entry.changes is required.") (text "changes must be a list.")
          (get (text "changes") fields)
    head ← normalize_changes changes received_at
    rest ← normalize_entries entries received_at
    ok (append_results head rest)

  unfoldable pub normalize_whatsapp_webhook : Json → ℤ → Normalized NormalizationResult
  normalize_whatsapp_webhook payload received_at = do
    fields ← as_object (text "Payload must be a mapping.") payload
    if not (is_string (text "whatsapp_business_account") (get (text "object") fields))
        then err (text "object must be 'whatsapp_business_account'.")
        else (do
          entries ←
              required_list (text "entry is required.") (text "entry must be a list.")
                (get (text "entry") fields)
          normalize_entries entries received_at)
