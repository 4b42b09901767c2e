-- ===== src/Api/Whatsapp.antt =====
-- apps/api/routes/whatsapp_webhook.py: the challenge of Meta, and a webhook from its signature to the
-- tables of the ingestion.
pub mod Authentic
pub mod Redelivery
mod Examples
use talap_ml.Common.{
  ℕ, Bool, true, false, not, Option, none, some, List, [], ◌∷◌, if◌then◌else◌, Result, ok, err,
}
use talap_ml.Common.Int.{ℤ}
use talap_ml.Common.Text.{Text, text, text_eq, is_empty}
use talap_ml.Common.Table.{Uuid}
use talap_ml.Common.Decimal.{UnicodeDigits}
use talap_ml.Common.Json.{Json, object}
use talap_ml.Ingestion.{ingest_normalized_webhook}
use talap_ml.Ingestion.Rows.{
  IngestionError, InboundDatabase, Sources, Webhook, IngestionSummary, connection_not_found,
  connection_inactive, connection_mismatch, validation_error, execution_error,
}
use talap_ml.Channels.Whatsapp.Normalizer.{NormalizationResult, normalize_whatsapp_webhook}
use talap_ml.Channels.Whatsapp.Security.{verify_whatsapp_challenge_token, verify_whatsapp_signature}

-- the status and the body or detail of a response; an error that is not caught leaves the handler
pub data Reply : Type 0 where
  reply : ℕ → Text → Reply
  uncaught : Reply

abbrev pub invalid_signature : Reply
invalid_signature = reply 401 (text "Invalid WhatsApp webhook signature.")

abbrev pub invalid_payload : Reply
invalid_payload = reply 400 (text "Invalid WhatsApp webhook payload.")

abbrev pub invalid_update : Reply
invalid_update = reply 400 (text "Invalid WhatsApp webhook update.")

abbrev pub unavailable : Reply
unavailable = reply 503 (text "WhatsApp webhook is temporarily unavailable.")

abbrev pub invalid_verification : Reply
invalid_verification = reply 403 (text "Invalid WhatsApp webhook verification request.")

abbrev pub received : Reply
received = reply 200 (text "")

-- the settings of the account
pub record Settings : Type 0 where
  pub verify_token : Option Text
  pub app_secret : Option Text
  pub connection_id : Option Uuid

abbrev pub mode_is_subscribe : Option Text → Bool
mode_is_subscribe none = false
mode_is_subscribe (some mode) = text_eq mode (text "subscribe")

-- the token and the challenge of a request with them all
unfoldable pub answer_challenge : Text → Text → Text → Reply
answer_challenge expected_token verify_token challenge =
    elim (verify_whatsapp_challenge_token verify_token expected_token) [
      | err _ ↦ uncaught
      | ok valid ↦ if valid then reply 200 challenge else invalid_verification
    ]

unfoldable pub whatsapp_verify : Settings → Option Text → Option Text → Option Text → Reply
whatsapp_verify settings mode verify_token challenge =
    if not (mode_is_subscribe mode) then invalid_verification else elim settings.verify_token [
      | none ↦ invalid_verification
      | some expected_token ↦ elim verify_token [
        | none ↦ invalid_verification
        | some provided_token ↦ elim challenge [
          | none ↦ invalid_verification
          | some text ↦ answer_challenge expected_token provided_token text
        ]
      ]
    ]

-- HMAC, and the JSON that the request is read as and that the ingestion stores
pub record Codecs : Type 0 where
  pub hmac_sha256 : Text → List ℕ → Text
  pub loads : List ℕ → Option Json
  pub dumps : Json → Option Text

abbrev pub error_reply : IngestionError → Reply
error_reply connection_not_found = unavailable
error_reply connection_inactive = unavailable
error_reply connection_mismatch = unavailable
error_reply validation_error = invalid_update
error_reply execution_error = unavailable

module _ (codecs : Codecs) (unicode : UnicodeDigits) (sources : Sources) where
  abbrev pub webhook_of : Uuid → List ℕ → Json → ℤ → NormalizationResult → Webhook
  webhook_of connection_id raw_body payload received_at normalized = record {
    connection_id = connection_id;
    channel = text "whatsapp";
    raw_body = raw_body;
    payload = codecs.dumps payload;
    received_at = some received_at;
    messages = normalized.messages;
    whatsapp_statuses = normalized.statuses;
  }

  -- the reply to a call of the ingestion, and the tables after it
  abbrev pub reply_to :
      InboundDatabase
      → Result IngestionError (IngestionSummary × InboundDatabase)
      → Reply × InboundDatabase
  reply_to db (ok (summary, after)) = (received, after)
  reply_to db (err e) = (error_reply e, db)

  unfoldable pub receive_payload :
      Uuid → List ℕ → Json → ℤ → InboundDatabase → Reply × InboundDatabase
  receive_payload connection_id raw_body payload received_at db =
      elim (normalize_whatsapp_webhook unicode payload received_at) [
        | err _ ↦ (invalid_update, db)
        | ok normalized ↦ reply_to db (
            ingest_normalized_webhook sources
              (webhook_of connection_id raw_body payload received_at normalized) db)
      ]

  -- the body of a request with a valid signature
  unfoldable pub receive_body : Uuid → List ℕ → ℤ → InboundDatabase → Reply × InboundDatabase
  receive_body connection_id raw_body received_at db =
      if is_empty raw_body then (invalid_payload, db) else elim (codecs.loads raw_body) [
        | some (object fields) ↦
            receive_payload connection_id raw_body (object fields) received_at db
        | _ ↦ (invalid_payload, db)
      ]

  unfoldable pub whatsapp_webhook :
      Settings → Option Text → List ℕ → ℤ → InboundDatabase → Reply × InboundDatabase
  whatsapp_webhook settings signature_header raw_body received_at db = elim settings.app_secret [
    | none ↦ (unavailable, db)
    | some app_secret ↦ elim settings.connection_id [
      | none ↦ (unavailable, db)
      | some connection_id ↦ elim signature_header [
        | none ↦ (invalid_signature, db)
        | some header ↦
            elim (verify_whatsapp_signature codecs.hmac_sha256 raw_body header app_secret) [
              | err _ ↦ (invalid_signature, db)
              | ok valid ↦
                  if valid
                  then receive_body connection_id raw_body received_at db
                  else (invalid_signature, db)
            ]
      ]
    ]
  ]
