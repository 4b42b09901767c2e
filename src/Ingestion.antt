-- ===== src/Ingestion.antt =====
-- talap/ingestion/service.py with the fingerprints and types beside it: one webhook is ingested in one
-- transaction over the tables of talap/db/models/inbound.py, so a call that raises commits nothing.
pub mod Rows
pub mod Inserts
pub mod Counts
pub mod Repeats
pub mod Redelivery
mod Examples
use talap_ml.Common.{
  ℕ, ◌+◌, ◌-◌, Bool, true, false, ◌&&◌, ◌||◌, not, Option, none, some, List, [], ◌∷◌, ◌++◌, any,
  select, map, length, leb, ◌==◌, if◌then◌else◌, Result, ok, err, ◌>>=◌, ◌>>◌,
}
use talap_ml.Common.Int.{ℤ, pos, ltb_ℤ}
use talap_ml.Common.Text.{Text, text, text_eq, is_empty, strip}
use talap_ml.Common.Table.{Uuid, find_row}
use talap_ml.Jobs.{Job, pending}
use talap_ml.Ingestion.Rows.{
  IngestionError, ChannelConnection, MediaReference, NormalizedInboundMessage, DeliveryStatusEvent,
  InboundEvent, InboundMessage, DeliveryStatus, InboundDatabase, IngestionSummary, Webhook, Sources,
  connection_not_found, connection_inactive, connection_mismatch, validation_error, execution_error,
}
use talap_ml.Ingestion.Inserts.{
  is_space_byte, mem_text, deduplicate_messages_from, deduplicate_messages, has_identity, is_job_of,
  has_fingerprint, payload_sha256, whatsapp_status_fingerprint, deduplicate_statuses_from,
  deduplicate_statuses, message_row, insert_messages, job_row, insert_processing_jobs, status_row,
  insert_statuses,
}

abbrev pub connection_key : ChannelConnection → Uuid
connection_key c = c.id

abbrev pub invalid_message : Text → NormalizedInboundMessage → Bool
invalid_message channel m =
    not (text_eq m.channel channel) || not (text_eq m.business_scope (text "talap_global"))

-- the payload and the time, where the arguments are valid
unfoldable pub validate_inputs : Webhook → Result IngestionError (Text × ℤ)
validate_inputs webhook =
    if not (text_eq webhook.channel (text "telegram") || text_eq webhook.channel (text "whatsapp"))
    then err validation_error
    else if is_empty webhook.raw_body
    then err validation_error
    else elim webhook.payload [
      | none ↦ err validation_error
      | some payload ↦ elim webhook.received_at [
        | none ↦ err validation_error
        | some received_at ↦
            if any (invalid_message webhook.channel) webhook.messages
            then err validation_error
            else if not (text_eq webhook.channel (text "whatsapp"))
                && not (is_empty webhook.whatsapp_statuses)
            then err validation_error
            else ok (payload, received_at)
      ]
    ]

abbrev pub is_event_of : Uuid → Text → Text → InboundEvent → Bool
is_event_of connection_id channel hash e =
    e.connection_id == connection_id && text_eq e.channel channel && text_eq e.payload_sha256 hash

-- `scalar_one()` of the ids
abbrev pub scalar_one : List InboundEvent → Result IngestionError Uuid
scalar_one (e ∷ []) = ok e.id
scalar_one _ = err execution_error

module _ (sources : Sources) where
  -- the event is new
  unfoldable pub ingest_new :
      Webhook
      → Text
      → Text
      → ℤ
      → InboundDatabase
      → Result IngestionError (IngestionSummary × InboundDatabase)
  ingest_new webhook hash payload received_at db = do
    let unique = deduplicate_messages webhook.messages
    let (inserted, messages) =
        insert_messages sources sources.event_id webhook.connection_id webhook.channel 0 unique
          db.messages
    let (jobs_created, jobs) = insert_processing_jobs sources 0 inserted.0 db.jobs
    unique_statuses ← deduplicate_statuses sources webhook.whatsapp_statuses
    (counts, statuses) ←
        insert_statuses sources sources.event_id webhook.connection_id 0 unique_statuses db.statuses
    ok (
      record {
        inbound_event_id = sources.event_id;
        event_created = true;
        messages_created = length inserted.0;
        messages_duplicate = length webhook.messages - length unique + inserted.1;
        processing_jobs_created = jobs_created;
        statuses_created = counts.0;
        statuses_duplicate = length webhook.whatsapp_statuses - length unique_statuses + counts.1;
      },
      record db {
        events =
            db.events
            ++ record {
              id = sources.event_id;
              connection_id = webhook.connection_id;
              channel = webhook.channel;
              payload_sha256 = hash;
              payload_json = payload;
              received_at = received_at;
            }
              ∷ [];
        messages = messages;
        jobs = jobs;
        statuses = statuses;
      },
    )

  -- the event is there already
  unfoldable pub ingest_duplicate :
      Webhook → Text → InboundDatabase → Result IngestionError (IngestionSummary × InboundDatabase)
  ingest_duplicate webhook hash db = do
    existing ←
        scalar_one (select (is_event_of webhook.connection_id webhook.channel hash) db.events)
    unique_statuses ← deduplicate_statuses sources webhook.whatsapp_statuses
    ok (
      record {
        inbound_event_id = existing;
        event_created = false;
        messages_created = 0;
        messages_duplicate = length (deduplicate_messages webhook.messages);
        processing_jobs_created = 0;
        statuses_created = 0;
        statuses_duplicate = length unique_statuses;
      },
      db,
    )

  unfoldable pub check_connection :
      Text → Option ChannelConnection → Result IngestionError (Unit {0})
  check_connection channel none = err connection_not_found
  check_connection channel (some c) =
      if not c.active
      then err connection_inactive
      else if not (text_eq c.channel channel)
      then err connection_mismatch
      else ok tt

  unfoldable pub ingest_event :
      Webhook
      → Text
      → Text
      → ℤ
      → InboundDatabase
      → Result IngestionError (IngestionSummary × InboundDatabase)
  ingest_event webhook hash payload received_at db =
      if any (is_event_of webhook.connection_id webhook.channel hash) db.events
      then ingest_duplicate webhook hash db
      else ingest_new webhook hash payload received_at db

  unfoldable pub ingest_in_transaction :
      Webhook
      → Text
      → ℤ
      → InboundDatabase
      → Result IngestionError (IngestionSummary × InboundDatabase)
  ingest_in_transaction webhook payload received_at db = do
    checked ←
        check_connection webhook.channel
          (find_row connection_key webhook.connection_id db.connections)
    hash ← payload_sha256 sources webhook.raw_body
    ingest_event webhook hash payload received_at db

  unfoldable pub ingest_normalized_webhook :
      Webhook → InboundDatabase → Result IngestionError (IngestionSummary × InboundDatabase)
  ingest_normalized_webhook webhook db = do
    (payload, received_at) ← validate_inputs webhook
    ingest_in_transaction webhook payload received_at db
