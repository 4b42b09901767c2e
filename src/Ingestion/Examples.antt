-- ===== src/Ingestion/Examples.antt =====
-- One WhatsApp webhook with a message, for talap/ingestion/service.py.
use talap_ml.Common.{◌+◌, ◌≡◌, refl, true, false, none, some, [], ◌∷◌, ok}
use talap_ml.Common.Int.{pos}
use talap_ml.Common.Text.{text, text_eq}
use talap_ml.Common.Table.{find_row}
use talap_ml.Ingestion.Rows.{
  NormalizedInboundMessage, InboundDatabase, Webhook, Sources, IngestionSummary, InboundEvent,
}
use talap_ml.Ingestion.Inserts.{
  message_row, job_row, payload_sha256, deduplicate_messages_from, deduplicate_statuses_from,
  insert_messages, insert_processing_jobs, insert_statuses,
}
use talap_ml.Ingestion.{
  ingest_normalized_webhook, validate_inputs, ingest_in_transaction, check_connection, ingest_event,
  ingest_new,
}
use talap_ml.Ingestion.Counts.{HasAccount, ingest_counts}
use talap_ml.Ingestion.Repeats.{ingest_repeats}

-- a hash for the examples, and rows numbered from 100 on
abbrev sources : Sources
sources = record {
  sha256 = λ bytes. bytes;
  canonical_json = λ external recipient status at codes. external;
  event_id = 50;
  message_ids = λ index. 100 + index;
  job_ids = λ index. 200 + index;
  status_ids = λ index. 300 + index;
  now = pos 9;
}

abbrev message : NormalizedInboundMessage
message = record {
  business_scope = text "talap_global";
  channel = text "whatsapp";
  external_chat_id = text "77010000000";
  external_user_id = text "77010000000";
  external_message_id = text "wamid.1";
  message_type = text "text";
  text = some (text "desk");
  media = none;
  received_at = pos 8;
}

-- the message is given twice
abbrev webhook : Webhook
webhook = record {
  connection_id = 1;
  channel = text "whatsapp";
  raw_body = text "{}";
  payload = some (text "{}");
  received_at = some (pos 8);
  messages = message ∷ message ∷ [];
  whatsapp_statuses = [];
}

abbrev database : InboundDatabase
database = record {
  connections = record { id = 1; channel = text "whatsapp"; active = true } ∷ [];
  events = [];
  messages = [];
  jobs = [];
  statuses = [];
}

abbrev summary : IngestionSummary
summary = record {
  inbound_event_id = 50;
  event_created = true;
  messages_created = 1;
  messages_duplicate = 1;
  processing_jobs_created = 1;
  statuses_created = 0;
  statuses_duplicate = 0;
}

abbrev event : InboundEvent
event = record {
  id = 50;
  connection_id = 1;
  channel = text "whatsapp";
  payload_sha256 = text "{}";
  payload_json = text "{}";
  received_at = pos 8;
}

abbrev stored : InboundDatabase
stored = record database {
  events = event ∷ [];
  messages = message_row sources 50 1 (text "whatsapp") 0 message ∷ [];
  jobs = job_row sources 0 100 ∷ [];
}

stores : ingest_normalized_webhook sources webhook database ≡ ok (summary, stored)
unfolding ingest_normalized_webhook validate_inputs ingest_in_transaction check_connection
    payload_sha256 ingest_event ingest_new deduplicate_messages_from deduplicate_statuses_from
    insert_messages insert_processing_jobs insert_statuses text_eq find_row
stores = refl

ingest_counts_example :
    HasAccount sources webhook database (ingest_normalized_webhook sources webhook database)
ingest_counts_example = ingest_counts sources webhook database

ingest_repeats_example :
    (again : IngestionSummary) × (ingest_normalized_webhook sources webhook stored
      ≡ ok (again, stored))
    × (again.event_created ≡ false)
    × (again.inbound_event_id ≡ 50)
ingest_repeats_example = ingest_repeats sources webhook database stored summary stores
