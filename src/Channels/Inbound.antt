-- ===== src/Channels/Inbound.antt =====
-- talap/channels/inbound.py: the validation of the channel-independent messages. The text that pydantic
-- makes of a `str` is what the validators after it see; an error is a ValidationError.
pub mod Contract
use talap_ml.Common.{
  ℕ, ◌+◌, Bool, true, false, ◌&&◌, ◌||◌, not, Option, none, some, List, [], ◌∷◌, map, any, length,
  leb, ◌==◌, if◌then◌else◌, ok, err, ◌>>=◌,
}
use talap_ml.Common.Int.{ℤ}
use talap_ml.Common.Text.{Text, text, text_eq, is_empty, strip}
use talap_ml.Common.Pydantic.{Validated, str_value}
use talap_ml.Ingestion.Rows.{MediaReference, NormalizedInboundMessage}

-- a blank value becomes None before pydantic reads it
unfoldable pub blank_to_none : Option Text → Validated (Option Text)
blank_to_none none = ok none
blank_to_none (some s) =
    if is_empty (strip s) then ok none else (do value ← str_value s; ok (some value))

-- `c.lower()`, for the letters that may stand in a checksum
unfoldable pub lower_hex : ℕ → ℕ
lower_hex c = if leb 65 c && leb c 70 then c + 32 else c

unfoldable pub is_hex_digit : ℕ → Bool
is_hex_digit c = (leb 48 c && leb c 57) || (leb 97 c && leb c 102)

unfoldable pub normalize_checksum_sha256 : Option Text → Validated (Option Text)
normalize_checksum_sha256 none = ok none
normalize_checksum_sha256 (some s) = do
  value ← str_value s
  let normalized = map lower_hex value
  if not (length normalized == 64) || any (λ c. not (is_hex_digit c)) normalized
      then err tt
      else ok (some normalized)

-- `MediaReference(external_media_id, mime_type, checksum_sha256)`
unfoldable pub media_reference : Text → Option Text → Option Text → Validated MediaReference
media_reference external_media_id mime_type checksum_sha256 = do
  media_id ← str_value external_media_id
  mime ← blank_to_none mime_type
  checksum ← normalize_checksum_sha256 checksum_sha256
  let media : MediaReference = record {
    external_media_id = media_id;
    mime_type = mime;
    file_name = none;
    size_bytes = none;
    duration_seconds = none;
    checksum_sha256 = checksum;
  }
  if is_empty media_id then err tt else ok media

abbrev pub max_identifier : ℕ
max_identifier = 512

-- `Field(min_length=1, max_length=512)` of the trimmed value
unfoldable pub identifier : Text → Validated Text
identifier s = do
  value ← str_value s
  if is_empty value || not (leb (length value) max_identifier) then err tt else ok value

abbrev pub is_some {ℓ} : {A : Type ℓ} → Option A → Bool
is_some none = false
is_some (some _) = true

-- `_check_message_type_invariants`, and the four literals of the type
unfoldable pub has_valid_body : Text → Option Text → Option MediaReference → Bool
has_valid_body message_type body media =
    if text_eq message_type (text "text")
    then is_some body && not (is_some media)
    else if text_eq message_type (text "voice")
    then is_some media
    else if text_eq message_type (text "image")
    then is_some media
    else text_eq message_type (text "unsupported") && not (is_some body) && not (is_some media)

abbrev pub is_channel : Text → Bool
is_channel channel = text_eq channel (text "telegram") || text_eq channel (text "whatsapp")

-- `NormalizedInboundMessage(...)` of the one business scope
unfoldable pub normalized_inbound_message :
    Text
    → Text
    → Text
    → Text
    → Text
    → Option Text
    → Option MediaReference
    → ℤ
    → Validated NormalizedInboundMessage
normalized_inbound_message channel chat user message_id message_type body media received_at = do
  external_chat_id ← identifier chat
  external_user_id ← identifier user
  external_message_id ← identifier message_id
  message_text ← blank_to_none body
  let message : NormalizedInboundMessage = record {
    business_scope = text "talap_global";
    channel = channel;
    external_chat_id = external_chat_id;
    external_user_id = external_user_id;
    external_message_id = external_message_id;
    message_type = message_type;
    text = message_text;
    media = media;
    received_at = received_at;
  }
  if is_channel channel && has_valid_body message_type message_text media
      then ok message
      else err tt
