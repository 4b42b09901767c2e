-- ===== src/Ingestion/Counts.antt =====
-- The counters of the summary that talap/ingestion/service.py returns.
use talap_ml.Common.{
  ℕ, ◌+◌, ◌≤◌, ◌≡◌, refl, inl, inr, Bool, true, false, List, [], ◌∷◌, ◌++◌, any, length,
  length-append, arith, Result, ok, err, Result-cases, Bool-cases, select,
}
use talap_ml.Common.Int.{ℤ}
use talap_ml.Common.Text.{Text}
use talap_ml.Common.Table.{Uuid, find_row}
use talap_ml.Jobs.{Job}
use talap_ml.Ingestion.Rows.{
  NormalizedInboundMessage, DeliveryStatusEvent, InboundMessage, DeliveryStatus, InboundDatabase,
  Webhook, Sources, IngestionSummary, IngestionError,
}
use talap_ml.Ingestion.Inserts.{
  mem_text, has_identity, is_job_of, has_fingerprint, deduplicate_messages,
  deduplicate_messages_from, whatsapp_status_fingerprint, deduplicate_statuses,
  deduplicate_statuses_from, message_row, insert_messages, job_row, insert_processing_jobs,
  status_row, insert_statuses, payload_sha256,
}
use talap_ml.Ingestion.{
  ingest_new, ingest_duplicate, ingest_event, ingest_in_transaction, ingest_normalized_webhook,
  check_connection, connection_key, validate_inputs, is_event_of, scalar_one,
}

length-deduplicate_messages_from :
    (seen : List Text) (messages : List NormalizedInboundMessage)
    → length (deduplicate_messages_from seen messages) ≤ length messages
unfolding deduplicate_messages_from
length-deduplicate_messages_from seen [] = omega arith
length-deduplicate_messages_from seen (m ∷ messages) =
    elim (Bool-cases (mem_text m.external_message_id seen)) [
      | inl e ↦ rw e (ground (arith, length-deduplicate_messages_from seen messages))
      | inr e ↦
          rw e (
            ground
              (arith, length-deduplicate_messages_from (m.external_message_id ∷ seen) messages))
    ]

module _ (sources : Sources) (event_id connection_id : Uuid) where
  length-insert_messages :
      (channel : Text) (index : ℕ) (messages : List NormalizedInboundMessage)
      (rows : List InboundMessage)
      → let inserted = insert_messages sources event_id connection_id channel index messages rows in
        (length inserted.0.0 + inserted.0.1 ≡ length messages)
        × (length inserted.1 ≡ length rows + length inserted.0.0)
  unfolding insert_messages
  length-insert_messages channel index [] rows = (refl, omega arith)
  length-insert_messages channel index (m ∷ messages) rows =
      elim (Bool-cases (any (has_identity connection_id channel m.external_message_id) rows)) [
        | inl e ↦ rw e (ground (arith, length-insert_messages channel (index + 1) messages rows))
        | inr e ↦ rw e (
            ground (
              arith,
              length-insert_messages channel (index + 1) messages
                  (rows ++ message_row sources event_id connection_id channel index m ∷ []),
              length-append rows (message_row sources event_id connection_id channel index m ∷ []),
            ))
      ]

  insert_statuses-total :
      (index : ℕ) (statuses : List DeliveryStatusEvent) (rows : List DeliveryStatus)
      (result : (ℕ × ℕ) × List DeliveryStatus)
      → insert_statuses sources event_id connection_id index statuses rows ≡ ok result
      → (result.0.0 + result.0.1 ≡ length statuses) × (length result.1 ≡ length rows + result.0.0)
  unfolding insert_statuses
  insert_statuses-total index [] rows result h = ground (arith, h)
  insert_statuses-total index (s ∷ statuses) rows result h =
      elim (Result-cases (whatsapp_status_fingerprint sources s)) [
        | inr (x, e) ↦ absurd (ground (arith, e))
        | inl (f, e) ↦
            let more = rows ++ status_row sources event_id connection_id index s f ∷ [] in
            elim (Bool-cases (any (has_fingerprint connection_id f) rows)) [
              | inl found ↦
                  elim (Result-cases
                    (insert_statuses sources event_id connection_id (index + 1) statuses rows)) [
                      | inr (x, g) ↦ absurd (ground (arith, e, found, g))
                      | inl (rest, g) ↦ ground (
                        arith,
                        e,
                        found,
                        g,
                        insert_statuses-total (index + 1) statuses rows rest g,
                      )
                    ]
              | inr new ↦
                  elim (Result-cases
                    (insert_statuses sources event_id connection_id (index + 1) statuses more)) [
                      | inr (x, g) ↦ absurd (ground (arith, e, new, g))
                      | inl (rest, g) ↦ ground (
                        arith,
                        e,
                        new,
                        g,
                        insert_statuses-total (index + 1) statuses more rest g,
                        length-append rows
                            (status_row sources event_id connection_id index s f ∷ []),
                      )
                    ]
            ]
      ]

module _ (sources : Sources) where
  insert_processing_jobs-bound :
      (index : ℕ) (ids : List Uuid) (jobs : List Job)
      → let inserted = insert_processing_jobs sources index ids jobs in
        (inserted.0 ≤ length ids) × (length inserted.1 ≡ length jobs + inserted.0)
  unfolding insert_processing_jobs
  insert_processing_jobs-bound index [] jobs = (omega arith, omega arith)
  insert_processing_jobs-bound index (k ∷ ids) jobs = elim (Bool-cases (any (is_job_of k) jobs)) [
    | inl e ↦ rw e (ground (arith, insert_processing_jobs-bound (index + 1) ids jobs))
    | inr e ↦ rw e (
        ground (
          arith,
          insert_processing_jobs-bound (index + 1) ids (jobs ++ job_row sources index k ∷ []),
          length-append jobs (job_row sources index k ∷ []),
        ))
  ]

  length-deduplicate_statuses_from :
      (seen : List Text) (statuses unique : List DeliveryStatusEvent)
      → deduplicate_statuses_from sources seen statuses ≡ ok unique
      → length unique ≤ length statuses
  unfolding deduplicate_statuses_from
  length-deduplicate_statuses_from seen [] unique h = ground (arith, h)
  length-deduplicate_statuses_from seen (s ∷ statuses) unique h =
      elim (Result-cases (whatsapp_status_fingerprint sources s)) [
        | inr (x, e) ↦ absurd (ground (arith, e))
        | inl (f, e) ↦ elim (Bool-cases (mem_text f seen)) [
          | inl found ↦ ground (
            arith,
            e,
            found,
            length-deduplicate_statuses_from seen statuses unique (ground (arith, e, found)),
          )
          | inr new ↦ elim (Result-cases (deduplicate_statuses_from sources (f ∷ seen) statuses)) [
            | inr (x, g) ↦ absurd (ground (arith, e, new, g))
            | inl (rest, g) ↦
                ground
                  (arith, e, new, g, length-deduplicate_statuses_from (f ∷ seen) statuses rest g)
          ]
        ]
      ]

  -- The tables have as many more rows as the counters say.
  abbrev pub Grows : InboundDatabase → IngestionSummary → InboundDatabase → Type 0
  Grows db s after =
      (length after.events ≡ length db.events + 1)
      × (length after.messages ≡ length db.messages + s.messages_created)
      × (length after.jobs ≡ length db.jobs + s.processing_jobs_created)
      × (length after.statuses ≡ length db.statuses + s.statuses_created)

  -- What the counters say, for a new event and for a repeated one.
  abbrev pub Accounts :
      Webhook → InboundDatabase → IngestionSummary → InboundDatabase → Bool → Type 0
  Accounts webhook db s after true =
      (s.messages_created + s.messages_duplicate ≡ length webhook.messages)
      × (s.processing_jobs_created ≤ s.messages_created)
      × (s.statuses_created + s.statuses_duplicate ≡ length webhook.whatsapp_statuses)
      × Grows db s after
  Accounts webhook db s after false =
      (s.messages_created ≡ 0)
      × (s.processing_jobs_created ≡ 0)
      × (s.statuses_created ≡ 0)
      × (s.messages_duplicate ≤ length webhook.messages)
      × (after ≡ db)

  abbrev pub HasAccount :
      Webhook
      → InboundDatabase
      → Result IngestionError (IngestionSummary × InboundDatabase)
      → Type 0
  HasAccount webhook db (ok (s, after)) = Accounts webhook db s after s.event_created
  HasAccount webhook db (err e) = Unit

  ingest_new-HasAccount :
      (webhook : Webhook) (hash payload : Text) (at : ℤ) (db : InboundDatabase)
      → HasAccount webhook db (ingest_new sources webhook hash payload at db)
  unfolding ingest_new
  ingest_new-HasAccount webhook hash payload at db =
      let unique = deduplicate_messages webhook.messages in
      let inserted =
        insert_messages sources sources.event_id webhook.connection_id webhook.channel 0 unique
          db.messages in
      elim (Result-cases (deduplicate_statuses sources webhook.whatsapp_statuses)) [
        | inr (x, e) ↦ rw (e, ingest_new) tt
        | inl (statuses, e) ↦
            elim (Result-cases (
              insert_statuses sources sources.event_id webhook.connection_id 0 statuses
                db.statuses)) [
                  | inr (x, f) ↦ rw (e, ingest_new, f) tt
                  | inl (result, f) ↦
                      let few = length-deduplicate_messages_from [] webhook.messages in
                      let all =
                        length-insert_messages sources sources.event_id webhook.connection_id
                          webhook.channel 0 unique db.messages in
                      let few_statuses =
                        length-deduplicate_statuses_from [] webhook.whatsapp_statuses statuses e in
                      let all_statuses =
                        insert_statuses-total sources sources.event_id webhook.connection_id 0
                          statuses db.statuses result f in
                      let jobs = insert_processing_jobs-bound 0 inserted.0.0 db.jobs in
                      rw (e, ingest_new, f)
                        (
                          omega (arith, few, all.0),
                          jobs.0,
                          omega (arith, few_statuses, all_statuses.0),
                          (length-append db.events _, all.1, jobs.1, all_statuses.1),
                        )
                ]
      ]

  ingest_duplicate-HasAccount :
      (webhook : Webhook) (hash : Text) (db : InboundDatabase)
      → HasAccount webhook db (ingest_duplicate sources webhook hash db)
  unfolding ingest_duplicate
  ingest_duplicate-HasAccount webhook hash db =
      elim (Result-cases
        (scalar_one (select (is_event_of webhook.connection_id webhook.channel hash) db.events))) [
          | inr (x, e) ↦ rw (e, ingest_duplicate) tt
          | inl (k, e) ↦
              elim (Result-cases (deduplicate_statuses sources webhook.whatsapp_statuses)) [
                | inr (x, f) ↦ rw (e, ingest_duplicate, f) tt
                | inl (statuses, f) ↦
                    rw (e, ingest_duplicate, f)
                      (refl, refl, refl, length-deduplicate_messages_from [] webhook.messages, refl)
              ]
        ]

  ingest_event-HasAccount :
      (webhook : Webhook) (hash payload : Text) (at : ℤ) (db : InboundDatabase)
      → HasAccount webhook db (ingest_event sources webhook hash payload at db)
  unfolding ingest_event
  ingest_event-HasAccount webhook hash payload at db =
      elim (Bool-cases (any (is_event_of webhook.connection_id webhook.channel hash) db.events)) [
        | inl e ↦ rw (e, ingest_event) (ingest_duplicate-HasAccount webhook hash db)
        | inr e ↦ rw (e, ingest_event) (ingest_new-HasAccount webhook hash payload at db)
      ]

  -- A new webhook accounts for each message and status it was given, as created or as duplicate,
  -- and counts no more jobs than created messages; the tables of messages, jobs and statuses grow
  -- by exactly the created numbers, and the events by one. A repeated one creates nothing, counts
  -- at most its messages as duplicates and leaves the database as it was.
  pub ingest_counts :
      (webhook : Webhook) (db : InboundDatabase)
      → HasAccount webhook db (ingest_normalized_webhook sources webhook db)
  unfolding ingest_normalized_webhook ingest_in_transaction
  ingest_counts webhook db = elim (Result-cases (validate_inputs webhook)) [
    | inr (x, e) ↦ rw (e, ingest_normalized_webhook) tt
    | inl (valid, e) ↦
        elim (Result-cases (
          check_connection sources webhook.channel
            (find_row connection_key webhook.connection_id db.connections))) [
              | inr (x, f) ↦ rw (e, ingest_normalized_webhook, ingest_in_transaction, f) tt
              | inl (u, f) ↦ elim (Result-cases (payload_sha256 sources webhook.raw_body)) [
                | inr (x, g) ↦ rw (e, ingest_normalized_webhook, ingest_in_transaction, f, g) tt
                | inl (hash, g) ↦
                    rw (e, ingest_normalized_webhook, ingest_in_transaction, f, g)
                      (ingest_event-HasAccount webhook hash valid.0 valid.1 db)
              ]
            ]
  ]
