-- ===== src/Ingestion/Repeats.antt =====
-- A webhook that talap/ingestion/service.py is given again.
use talap_ml.Common.{
  ◌≡◌, refl, sym, ◌∙◌, inl, inr, Bool, true, false, ==_iff, List, [], ◌∷◌, ◌++◌, any, select,
  length, arith, Result, ok, err, Result-cases, Bool-cases,
}
use talap_ml.Common.Int.{ℤ}
use talap_ml.Common.Text.{Text, text_eq_iff}
use talap_ml.Common.Table.{Uuid, find_row}
use talap_ml.Ingestion.Rows.{
  DeliveryStatusEvent, InboundEvent, InboundDatabase, Webhook, Sources, IngestionSummary,
  IngestionError,
}
use talap_ml.Ingestion.Inserts.{
  deduplicate_messages, deduplicate_statuses, insert_statuses, payload_sha256,
}
use talap_ml.Ingestion.{
  is_event_of, scalar_one, ingest_new, ingest_duplicate, ingest_event, ingest_in_transaction,
  ingest_normalized_webhook, check_connection, connection_key, validate_inputs,
}

any-append_last :
    (p : InboundEvent → Bool) (events : List InboundEvent) (e : InboundEvent)
    → p e ≡ true
    → any p (events ++ e ∷ []) ≡ true
any-append_last p [] e h = ground arith
any-append_last p (x ∷ events) e h = ground (arith, any-append_last p events e h)

select-append_last :
    (p : InboundEvent → Bool) (events : List InboundEvent) (e : InboundEvent)
    → any p events ≡ false
    → p e ≡ true
    → select p (events ++ e ∷ []) ≡ e ∷ []
select-append_last p [] e none_before h = ground arith
select-append_last p (x ∷ events) e none_before h = ground (arith, select-append_last p events e)

module _ (sources : Sources) (webhook : Webhook) where
  abbrev repeated : Uuid → List DeliveryStatusEvent → IngestionSummary
  repeated k statuses = record {
    inbound_event_id = k;
    event_created = false;
    messages_created = 0;
    messages_duplicate = length (deduplicate_messages webhook.messages);
    processing_jobs_created = 0;
    statuses_created = 0;
    statuses_duplicate = length statuses;
  }

  module _ (hash payload : Text) (at : ℤ) where
    -- What the same event finds in the database that the first call left.
    abbrev Repeats :
        InboundDatabase → Result IngestionError (IngestionSummary × InboundDatabase) → Type 0
    Repeats db (ok (s, after)) =
        (after.connections ≡ db.connections)
        × (again : IngestionSummary) × (ingest_event sources webhook hash payload at after
            ≡ ok (again, after))
        × (again.event_created ≡ false)
        × (again.inbound_event_id ≡ s.inbound_event_id)
    Repeats db (err e) = Unit

    abbrev matches : InboundEvent → Bool
    matches = is_event_of webhook.connection_id webhook.channel hash

    duplicate-Repeats :
        (db : InboundDatabase)
        → any matches db.events ≡ true
        → Repeats db (ingest_duplicate sources webhook hash db)
    unfolding ingest_duplicate ingest_event
    duplicate-Repeats db found = elim (Result-cases (scalar_one (select matches db.events))) [
      | inr (x, e) ↦ rw (e, ingest_duplicate) tt
      | inl (k, e) ↦ elim (Result-cases (deduplicate_statuses sources webhook.whatsapp_statuses)) [
        | inr (x, f) ↦ rw (e, ingest_duplicate, f) tt
        | inl (statuses, f) ↦
            rw (e, ingest_duplicate, f)
              (
                refl,
                repeated k statuses,
                rw (found, ingest_event, e, ingest_duplicate, f) refl,
                refl,
                refl,
              )
      ]
    ]

    new-Repeats :
        (db : InboundDatabase)
        → any matches db.events ≡ false
        → Repeats db (ingest_new sources webhook hash payload at db)
    unfolding ingest_new ingest_duplicate ingest_event
    new-Repeats db new =
        elim (Result-cases (deduplicate_statuses sources webhook.whatsapp_statuses)) [
          | inr (x, e) ↦ rw (e, ingest_new) tt
          | inl (statuses, e) ↦
              elim (Result-cases (
                insert_statuses sources sources.event_id webhook.connection_id 0 statuses
                  db.statuses)) [
                    | inr (x, f) ↦ rw (e, ingest_new, f) tt
                    | inl (result, f) ↦
                        let event : InboundEvent = record {
                          id = sources.event_id;
                          connection_id = webhook.connection_id;
                          channel = webhook.channel;
                          payload_sha256 = hash;
                          payload_json = payload;
                          received_at = at;
                        } in
                        let same : matches event ≡ true =
                          rw
                            (
                              (==_iff webhook.connection_id webhook.connection_id).1 refl,
                              (text_eq_iff webhook.channel webhook.channel).1 refl,
                              (text_eq_iff hash hash).1 refl,
                            )
                            refl in
                        rw (e, ingest_new, f)
                          (
                            refl,
                            repeated sources.event_id statuses,
                            rw
                                (
                                  any-append_last matches db.events event same,
                                  ingest_event,
                                  select-append_last matches db.events event new same,
                                  ingest_duplicate,
                                  e,
                                )
                                refl,
                            refl,
                            refl,
                          )
                  ]
        ]

    event-Repeats :
        (db : InboundDatabase) → Repeats db (ingest_event sources webhook hash payload at db)
    unfolding ingest_event
    event-Repeats db = elim (Bool-cases (any matches db.events)) [
      | inl found ↦ rw (found, ingest_event) (duplicate-Repeats db found)
      | inr new ↦ rw (new, ingest_event) (new-Repeats db new)
    ]

  -- A webhook that passes the tests is ingested as its event.
  accepted :
      (db : InboundDatabase) (valid : Text × ℤ) (hash : Text)
      → validate_inputs webhook ≡ ok valid
      → (u : Unit {0})
      → check_connection sources webhook.channel
          (find_row connection_key webhook.connection_id db.connections)
        ≡ ok u
      → payload_sha256 sources webhook.raw_body ≡ ok hash
      → ingest_normalized_webhook sources webhook db
        ≡ ingest_event sources webhook hash valid.0 valid.1 db
  unfolding ingest_normalized_webhook ingest_in_transaction
  accepted db valid hash e u f g =
      rw (e, ingest_normalized_webhook, ingest_in_transaction, f, g) refl

  -- A webhook that was ingested, given again as it was, finds the event of the first call,
  -- reports it as not created, and changes nothing.
  pub ingest_repeats :
      (db after : InboundDatabase) (s : IngestionSummary)
      → ingest_normalized_webhook sources webhook db ≡ ok (s, after)
      → (again : IngestionSummary) × (ingest_normalized_webhook sources webhook after
          ≡ ok (again, after))
        × (again.event_created ≡ false)
        × (again.inbound_event_id ≡ s.inbound_event_id)
  unfolding ingest_normalized_webhook ingest_in_transaction
  ingest_repeats db after s h = elim (Result-cases (validate_inputs webhook)) [
    | inr (x, e) ↦ absurd (ground (arith, e))
    | inl (valid, e) ↦
        elim (Result-cases (
          check_connection sources webhook.channel
            (find_row connection_key webhook.connection_id db.connections))) [
              | inr (x, f) ↦ absurd (ground (arith, e, f))
              | inl (u, f) ↦ elim (Result-cases (payload_sha256 sources webhook.raw_body)) [
                | inr (x, g) ↦ absurd (ground (arith, e, f, g))
                | inl (hash, g) ↦
                    let first_run : ingest_event sources webhook hash valid.0 valid.1 db
                        ≡ ok (s, after) =
                      sym (accepted db valid hash e u f g) ∙ h in
                    let (kept, again, run, created, same) =
                      rw first_run at (event-Repeats hash valid.0 valid.1 db) in
                    (again, accepted after valid hash e u (rw kept f) g ∙ run, created, same)
              ]
            ]
  ]
