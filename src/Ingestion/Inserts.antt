-- ===== src/Ingestion/Inserts.antt =====
-- talap/ingestion/service.py and fingerprints.py: identities, and the insertion of rows with ON CONFLICT.
use talap_ml.Common.{
  ℕ, ◌+◌, Bool, ◌&&◌, ◌||◌, not, none, List, [], ◌∷◌, ◌++◌, any, leb, ◌==◌, if◌then◌else◌, Result,
  ok, err, ◌>>=◌,
}
use talap_ml.Common.Int.{pos, ltb_ℤ}
use talap_ml.Common.Text.{Text, text_eq, is_empty, is_surrogate, strip}
use talap_ml.Common.Table.{Uuid}
use talap_ml.Jobs.{Job, pending}
use talap_ml.Ingestion.Rows.{
  IngestionError, NormalizedInboundMessage, DeliveryStatusEvent, InboundMessage, DeliveryStatus,
  Sources, execution_error,
}

-- `bytes.strip` drops these
abbrev pub is_space_byte : ℕ → Bool
is_space_byte b = (leb 9 b && leb b 13) || b == 32

abbrev pub mem_text : Text → List Text → Bool
mem_text t seen = any (text_eq t) seen

unfoldable pub deduplicate_messages_from :
    List Text → List NormalizedInboundMessage → List NormalizedInboundMessage
deduplicate_messages_from seen [] = []
deduplicate_messages_from seen (m ∷ messages) =
    let skipped = deduplicate_messages_from seen messages in
    let kept = m ∷ deduplicate_messages_from (m.external_message_id ∷ seen) messages in
    if mem_text m.external_message_id seen then skipped else kept

abbrev pub deduplicate_messages : List NormalizedInboundMessage → List NormalizedInboundMessage
deduplicate_messages messages = deduplicate_messages_from [] messages

-- the identity under which a message is unique
abbrev pub has_identity : Uuid → Text → Text → InboundMessage → Bool
has_identity connection_id channel external_id row =
    row.connection_id == connection_id
    && text_eq row.channel channel
    && text_eq row.message.external_message_id external_id

abbrev pub is_job_of : Uuid → Job → Bool
is_job_of message_id j = j.message_id == message_id

abbrev pub has_fingerprint : Uuid → Text → DeliveryStatus → Bool
has_fingerprint connection_id fingerprint row =
    row.connection_id == connection_id && text_eq row.fingerprint_sha256 fingerprint

module _ (sources : Sources) where
  -- the ValueErrors of a fingerprint, also that of encoding a lone surrogate, leave the call as its execution error
  unfoldable pub payload_sha256 : List ℕ → Result IngestionError Text
  payload_sha256 raw_body =
      if any (λ b. not (is_space_byte b)) raw_body
      then ok (sources.sha256 raw_body)
      else err execution_error

  unfoldable pub whatsapp_status_fingerprint : DeliveryStatusEvent → Result IngestionError Text
  whatsapp_status_fingerprint s =
      if is_empty (strip s.external_message_id)
        || is_empty (strip s.recipient_id)
        || is_empty (strip s.status)
        || any (λ code. ltb_ℤ code (pos 0)) s.error_codes
        || any is_surrogate s.external_message_id
        || any is_surrogate s.recipient_id
        || any is_surrogate s.status
      then err execution_error
      else ok (
          sources.sha256 (
            sources.canonical_json (strip s.external_message_id) (strip s.recipient_id)
              (strip s.status) s.occurred_at s.error_codes))

  unfoldable pub deduplicate_statuses_from :
      List Text → List DeliveryStatusEvent → Result IngestionError (List DeliveryStatusEvent)
  deduplicate_statuses_from seen [] = ok []
  deduplicate_statuses_from seen (s ∷ statuses) = do
    fingerprint ← whatsapp_status_fingerprint s
    let skipped = deduplicate_statuses_from seen statuses
    let kept = deduplicate_statuses_from (fingerprint ∷ seen) statuses
    if mem_text fingerprint seen then skipped else (kept >>= λ rest. ok (s ∷ rest))

  abbrev pub deduplicate_statuses :
      List DeliveryStatusEvent → Result IngestionError (List DeliveryStatusEvent)
  deduplicate_statuses statuses = deduplicate_statuses_from [] statuses

  abbrev pub message_row : Uuid → Uuid → Text → ℕ → NormalizedInboundMessage → InboundMessage
  message_row event_id connection_id channel index m = record {
    id = sources.message_ids index;
    inbound_event_id = event_id;
    connection_id = connection_id;
    channel = channel;
    message = m;
  }

  -- from the `index`-th message on: the ids of the inserted rows, the number of conflicts, the table
  unfoldable pub insert_messages :
      Uuid
      → Uuid
      → Text
      → ℕ
      → List NormalizedInboundMessage
      → List InboundMessage
      → (List Uuid × ℕ) × List InboundMessage
  insert_messages event_id connection_id channel index [] rows = (([], 0), rows)
  insert_messages event_id connection_id channel index (m ∷ messages) rows =
      let row = message_row event_id connection_id channel index m in
      let (present, rows_present) =
        insert_messages event_id connection_id channel (index + 1) messages rows in
      let (absent, rows_absent) =
        insert_messages event_id connection_id channel (index + 1) messages (rows ++ row ∷ []) in
      if any (has_identity connection_id channel m.external_message_id) rows
      then ((present.0, present.1 + 1), rows_present)
      else ((row.id ∷ absent.0, absent.1), rows_absent)

  abbrev pub job_row : ℕ → Uuid → Job
  job_row index message_id = record {
    id = sources.job_ids index;
    message_id = message_id;
    status = pending;
    attempts = 0;
    available_at = sources.now;
    started_at = none;
    completed_at = none;
    last_error = none;
    created_at = sources.now;
    updated_at = sources.now;
  }

  -- the number of the created jobs, and the table
  unfoldable pub insert_processing_jobs : ℕ → List Uuid → List Job → ℕ × List Job
  insert_processing_jobs index [] jobs = (0, jobs)
  insert_processing_jobs index (message_id ∷ ids) jobs =
      let present = insert_processing_jobs (index + 1) ids jobs in
      let absent = insert_processing_jobs (index + 1) ids (jobs ++ job_row index message_id ∷ []) in
      if any (is_job_of message_id) jobs then present else (absent.0 + 1, absent.1)

  abbrev pub status_row : Uuid → Uuid → ℕ → DeliveryStatusEvent → Text → DeliveryStatus
  status_row event_id connection_id index s fingerprint = record {
    id = sources.status_ids index;
    inbound_event_id = event_id;
    connection_id = connection_id;
    event = s;
    fingerprint_sha256 = fingerprint;
  }

  -- the numbers of the created rows and of the conflicts, and the table
  unfoldable pub insert_statuses :
      Uuid
      → Uuid
      → ℕ
      → List DeliveryStatusEvent
      → List DeliveryStatus
      → Result IngestionError ((ℕ × ℕ) × List DeliveryStatus)
  insert_statuses event_id connection_id index [] rows = ok ((0, 0), rows)
  insert_statuses event_id connection_id index (s ∷ statuses) rows = do
    fingerprint ← whatsapp_status_fingerprint s
    let row = status_row event_id connection_id index s fingerprint
    let present = insert_statuses event_id connection_id (index + 1) statuses rows
    let absent = insert_statuses event_id connection_id (index + 1) statuses (rows ++ row ∷ [])
    if any (has_fingerprint connection_id fingerprint) rows
        then (present >>= λ r. ok ((r.0.0, r.0.1 + 1), r.1))
        else (absent >>= λ r. ok ((r.0.0 + 1, r.0.1), r.1))
