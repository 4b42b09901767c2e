-- ===== src/Ingestion/Rows.antt =====
-- The tables that talap/ingestion/service.py reads and writes, its arguments and its results.
use talap_ml.Common.{ℕ, Bool, Option, List}
use talap_ml.Common.Int.{ℤ}
use talap_ml.Common.Text.{Text}
use talap_ml.Common.Table.{Uuid}
use talap_ml.Jobs.{Job}

pub data IngestionError : Type 0 where
  connection_not_found connection_inactive connection_mismatch validation_error execution_error :
      IngestionError

pub record ChannelConnection : Type 0 where
  pub id : Uuid
  pub channel : Text
  pub active : Bool

-- talap/channels/inbound.py
pub record MediaReference : Type 0 where
  pub external_media_id : Text
  pub mime_type : Option Text
  pub file_name : Option Text
  pub size_bytes : Option ℕ
  pub duration_seconds : Option ℕ
  pub checksum_sha256 : Option Text

pub record NormalizedInboundMessage : Type 0 where
  pub business_scope : Text
  pub channel : Text
  pub external_chat_id : Text
  pub external_user_id : Text
  pub external_message_id : Text
  pub message_type : Text
  pub text : Option Text
  pub media : Option MediaReference
  pub received_at : ℤ

-- talap/channels/whatsapp/normalizer.py
pub record DeliveryStatusEvent : Type 0 where
  pub external_message_id : Text
  pub recipient_id : Text
  pub status : Text
  pub occurred_at : ℤ
  pub error_codes : List ℤ

pub record InboundEvent : Type 0 where
  pub id : Uuid
  pub connection_id : Uuid
  pub channel : Text
  pub payload_sha256 : Text
  pub payload_json : Text
  pub received_at : ℤ

-- the columns of the message, and the normalized message that the others are copied from
pub record InboundMessage : Type 0 where
  pub id : Uuid
  pub inbound_event_id : Uuid
  pub connection_id : Uuid
  pub channel : Text
  pub message : NormalizedInboundMessage

pub record DeliveryStatus : Type 0 where
  pub id : Uuid
  pub inbound_event_id : Uuid
  pub connection_id : Uuid
  pub event : DeliveryStatusEvent
  pub fingerprint_sha256 : Text

pub record InboundDatabase : Type 0 where
  pub connections : List ChannelConnection
  pub events : List InboundEvent
  pub messages : List InboundMessage
  pub jobs : List Job
  pub statuses : List DeliveryStatus

pub record IngestionSummary : Type 0 where
  pub inbound_event_id : Uuid
  pub event_created : Bool
  pub messages_created : ℕ
  pub messages_duplicate : ℕ
  pub processing_jobs_created : ℕ
  pub statuses_created : ℕ
  pub statuses_duplicate : ℕ

-- The arguments of a call: the payload as its JSON text, none where `json.dumps` raises, and the time
-- of receipt, none where it has no time zone.
pub record Webhook : Type 0 where
  pub connection_id : Uuid
  pub channel : Text
  pub raw_body : List ℕ
  pub payload : Option Text
  pub received_at : Option ℤ
  pub messages : List NormalizedInboundMessage
  pub whatsapp_statuses : List DeliveryStatusEvent

-- Hashes and JSON from outside, and the ids and the time that the database gives the new rows.
pub record Sources : Type 0 where
  pub sha256 : List ℕ → Text
  pub canonical_json : Text → Text → Text → ℤ → List ℤ → List ℕ
  pub event_id : Uuid
  pub message_ids : ℕ → Uuid
  pub job_ids : ℕ → Uuid
  pub status_ids : ℕ → Uuid
  pub now : ℤ
