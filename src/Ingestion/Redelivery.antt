-- ===== src/Ingestion/Redelivery.antt =====
-- A webhook that talap/ingestion/service.py is given again with other times.
use talap_ml.Common.{
  ◌≡◌, refl, sym, ap, ◌∙◌, inl, inr, Bool, true, false, ◌||◌, Option, List, [], ◌∷◌, any, map,
  arith, if◌then◌else◌, Result, ok, >>=-eq-ok, >>=-ok, Succeeds, >>=-Succeeds, if-cases, Bool-cases,
  All, select, ok-injective,
}
use talap_ml.Common.Int.{ℤ, pos, ltb_ℤ}
use talap_ml.Common.Text.{Text, is_empty, is_surrogate, strip}
use talap_ml.Common.Table.{find_row}
use talap_ml.Ingestion.Rows.{
  DeliveryStatusEvent, NormalizedInboundMessage, InboundDatabase, Webhook, Sources,
  IngestionSummary, IngestionError,
}
use talap_ml.Ingestion.Inserts.{
  mem_text, deduplicate_statuses, deduplicate_statuses_from, whatsapp_status_fingerprint,
  insert_statuses, payload_sha256,
}
use talap_ml.Ingestion.{
  is_event_of, scalar_one, ingest_new, ingest_duplicate, ingest_event, ingest_in_transaction,
  ingest_normalized_webhook, check_connection, connection_key, validate_inputs,
}
use talap_ml.Ingestion.Repeats.{ingest_repeats}

abbrev pub has_negative_code : DeliveryStatusEvent → Bool
has_negative_code s = any (λ code. ltb_ℤ code (pos 0)) s.error_codes

module _ (sources : Sources) where
  abbrev HasFingerprint : DeliveryStatusEvent → Type 0
  HasFingerprint s = Succeeds (whatsapp_status_fingerprint sources s)

  fingerprints :
      (seen : List Text) (statuses : List DeliveryStatusEvent)
      → Succeeds (deduplicate_statuses_from sources seen statuses)
      → All HasFingerprint statuses
  unfolding deduplicate_statuses_from
  fingerprints seen [] h = tt
  fingerprints seen (s ∷ statuses) (unique, h) =
      let (f, e, h1) = >>=-eq-ok (whatsapp_status_fingerprint sources s) _ h in
      (
        (f, e),
        elim (if-cases (mem_text f seen) _ _ h1) [
          | inl (b, k) ↦ fingerprints seen statuses (unique, k)
          | inr (b, k) ↦
              let (rest, g, k1) =
                >>=-eq-ok (deduplicate_statuses_from sources (f ∷ seen) statuses) _ k in
              fingerprints (f ∷ seen) statuses (rest, g)
        ],
      )

  if-Succeeds :
      {A : Type 0} (b : Bool) (x y : Result IngestionError A)
      → Succeeds x
      → Succeeds y
      → Succeeds (if b then x else y)
  if-Succeeds true x y h k = h
  if-Succeeds false x y h k = k

  if_false-Succeeds :
      {A : Type 0} (b : Bool) (x y : Result IngestionError A)
      → b ≡ false
      → Succeeds y
      → Succeeds (if b then x else y)
  if_false-Succeeds true x y h k = cc
  if_false-Succeeds false x y h k = k

  deduplicates :
      (seen : List Text) (statuses : List DeliveryStatusEvent)
      → All HasFingerprint statuses
      → Succeeds (deduplicate_statuses_from sources seen statuses)
  unfolding deduplicate_statuses_from
  deduplicates seen [] h = (_, refl)
  deduplicates seen (s ∷ statuses) h =
      >>=-Succeeds (whatsapp_status_fingerprint sources s) _ h.0 (λ f e.
        if-Succeeds (mem_text f seen) _ _ (deduplicates seen statuses h.1) (
          >>=-Succeeds (deduplicate_statuses_from sources (f ∷ seen) statuses) _
            (deduplicates (f ∷ seen) statuses h.1) (λ rest g. (_, refl))))

  duplicate_fingerprints :
      (webhook : Webhook) (hash : Text) (db : InboundDatabase)
      (r : IngestionSummary × InboundDatabase)
      → ingest_duplicate sources webhook hash db ≡ ok r
      → All HasFingerprint webhook.whatsapp_statuses
  unfolding ingest_duplicate
  duplicate_fingerprints webhook hash db r h =
      let (k, e, h1) =
        >>=-eq-ok
          (scalar_one (select (is_event_of webhook.connection_id webhook.channel hash) db.events)) _
          h in
      let (unique, f, h2) =
        >>=-eq-ok (deduplicate_statuses sources webhook.whatsapp_statuses) _ h1 in
      fingerprints [] webhook.whatsapp_statuses (unique, f)

  new_fingerprints :
      (webhook : Webhook) (hash payload : Text) (at : ℤ) (db : InboundDatabase)
      (r : IngestionSummary × InboundDatabase)
      → ingest_new sources webhook hash payload at db ≡ ok r
      → All HasFingerprint webhook.whatsapp_statuses
  unfolding ingest_new
  new_fingerprints webhook hash payload at db r h =
      let (unique, f, h1) =
        >>=-eq-ok (deduplicate_statuses sources webhook.whatsapp_statuses) _ h in
      fingerprints [] webhook.whatsapp_statuses (unique, f)

  -- What is ingested has a fingerprint of every status.
  ingested_fingerprints :
      (webhook : Webhook) (db : InboundDatabase) (r : IngestionSummary × InboundDatabase)
      → ingest_normalized_webhook sources webhook db ≡ ok r
      → All HasFingerprint webhook.whatsapp_statuses
  unfolding ingest_normalized_webhook ingest_in_transaction ingest_event
  ingested_fingerprints webhook db r h =
      let (v, e, h1) = >>=-eq-ok (validate_inputs webhook) _ h in
      let (u, f, h2) =
        >>=-eq-ok
          (check_connection sources webhook.channel
            (find_row connection_key webhook.connection_id db.connections))
          _ h1 in
      let (hash, g, h3) = >>=-eq-ok (payload_sha256 sources webhook.raw_body) _ h2 in
      elim (if-cases (any (is_event_of webhook.connection_id webhook.channel hash) db.events) _ _
        h3) [
          | inl (b, k) ↦ duplicate_fingerprints webhook hash db r k
          | inr (b, k) ↦ new_fingerprints webhook hash v.0 v.1 db r k
        ]

  no_negative_code : (s : DeliveryStatusEvent) → HasFingerprint s → has_negative_code s ≡ false
  unfolding whatsapp_status_fingerprint
  no_negative_code s (f, h) = elim (Bool-cases (has_negative_code s)) [
    | inr e ↦ e
    | inl e ↦ absurd (ground (arith, e, h))
  ]

  no_negative_codes :
      (statuses : List DeliveryStatusEvent)
      → All HasFingerprint statuses
      → any has_negative_code statuses ≡ false
  no_negative_codes [] h = refl
  no_negative_codes (s ∷ statuses) h = rw (no_negative_code s h.0) (no_negative_codes statuses h.1)

  -- A webhook with a negative error code in a status is not ingested.
  pub ingested_has_no_negative_code :
      (webhook : Webhook) (db : InboundDatabase) (r : IngestionSummary × InboundDatabase)
      → ingest_normalized_webhook sources webhook db ≡ ok r
      → any has_negative_code webhook.whatsapp_statuses ≡ false
  ingested_has_no_negative_code webhook db r h =
      no_negative_codes webhook.whatsapp_statuses (ingested_fingerprints webhook db r h)

  -- The time of a status does not make it invalid.
  abbrev pub untimed_status : DeliveryStatusEvent → DeliveryStatusEvent
  untimed_status s = record s { occurred_at = pos 0 }

  abbrev is_invalid : DeliveryStatusEvent → Bool
  is_invalid s =
      is_empty (strip s.external_message_id)
      || is_empty (strip s.recipient_id)
      || is_empty (strip s.status)
      || any (λ code. ltb_ℤ code (pos 0)) s.error_codes
      || any is_surrogate s.external_message_id
      || any is_surrogate s.recipient_id
      || any is_surrogate s.status

  HasFingerprint-untimed :
      (s t : DeliveryStatusEvent)
      → untimed_status s ≡ untimed_status t
      → HasFingerprint s
      → HasFingerprint t
  unfolding whatsapp_status_fingerprint
  HasFingerprint-untimed s t same (f, h) = elim (if-cases (is_invalid s) _ _ h) [
    | inl (b, k) ↦ absurd cc
    | inr (b, k) ↦
        let valid : is_invalid t ≡ false = ap is_invalid (sym same) ∙ b in
        if_false-Succeeds (is_invalid t) _ _ valid (_, refl)
  ]

  All-untimed :
      (ss ts : List DeliveryStatusEvent)
      → map untimed_status ss ≡ map untimed_status ts
      → All HasFingerprint ss
      → All HasFingerprint ts
  All-untimed [] [] h k = tt
  All-untimed [] (t ∷ ts) h k = absurd cc
  All-untimed (s ∷ ss) [] h k = absurd cc
  All-untimed (s ∷ ss) (t ∷ ts) h k =
      (HasFingerprint-untimed s t (cc) k.0, All-untimed ss ts (cc) k.1)

  module _ (webhook : Webhook) (payload : Option Text) (later : Option ℤ)
      (messages : List NormalizedInboundMessage) (statuses : List DeliveryStatusEvent) where
    -- The same body, received at another time.
    abbrev pub redelivered : Webhook
    redelivered = record webhook {
      payload = payload;
      received_at = later;
      messages = messages;
      whatsapp_statuses = statuses;
    }

    duplicate-redelivered :
        (hash : Text) (db after : InboundDatabase) (s : IngestionSummary)
        → map untimed_status webhook.whatsapp_statuses ≡ map untimed_status statuses
        → ingest_duplicate sources webhook hash db ≡ ok (s, after)
        → (again : IngestionSummary) × (ingest_duplicate sources redelivered hash db
            ≡ ok (again, db))
    unfolding ingest_duplicate
    duplicate-redelivered hash db after s same h =
        let (k, e, h1) =
          >>=-eq-ok
            (scalar_one (select (is_event_of webhook.connection_id webhook.channel hash) db.events))
            _ h in
        let (unique, f, h2) =
          >>=-eq-ok (deduplicate_statuses sources webhook.whatsapp_statuses) _ h1 in
        let (others, g) = deduplicates [] statuses (
          All-untimed webhook.whatsapp_statuses statuses same
            (fingerprints [] webhook.whatsapp_statuses (unique, f))) in
        (
          _,
          >>=-ok
              (scalar_one
                (select (is_event_of webhook.connection_id webhook.channel hash) db.events))
              _ e (>>=-ok (deduplicate_statuses sources statuses) _ g refl),
        )

    new-is_created :
        (hash text : Text) (at : ℤ) (db after : InboundDatabase) (s : IngestionSummary)
        → ingest_new sources webhook hash text at db ≡ ok (s, after)
        → s.event_created ≡ true
    unfolding ingest_new
    new-is_created hash text at db after s h =
        let (unique, f, h1) =
          >>=-eq-ok (deduplicate_statuses sources webhook.whatsapp_statuses) _ h in
        let (counts, g, h2) =
          >>=-eq-ok
            (insert_statuses sources sources.event_id webhook.connection_id 0 unique db.statuses) _
            h1 in
        sym (ap (λ r. r.0.event_created) (ok-injective h2))

    event-redelivered :
        (hash text : Text) (at : ℤ) (text' : Text) (at' : ℤ) (db after : InboundDatabase)
        (s : IngestionSummary)
        → map untimed_status webhook.whatsapp_statuses ≡ map untimed_status statuses
        → s.event_created ≡ false
        → ingest_event sources webhook hash text at db ≡ ok (s, after)
        → (again : IngestionSummary) × (ingest_event sources redelivered hash text' at' db
            ≡ ok (again, db))
    unfolding ingest_event
    event-redelivered hash text at text' at' db after s same old h =
        elim (if-cases (any (is_event_of webhook.connection_id webhook.channel hash) db.events) _ _
          h) [
            | inr (b, k) ↦ absurd (ground (arith, old, new-is_created hash text at db after s k))
            | inl (b, k) ↦ rw (b, ingest_event) (duplicate-redelivered hash db after s same k)
          ]

    -- A webhook that was ingested, given again with other times, changes nothing.
    pub ingest_redelivered :
        (db after : InboundDatabase) (s : IngestionSummary) (valid : Text × ℤ)
        → ingest_normalized_webhook sources webhook db ≡ ok (s, after)
        → map untimed_status webhook.whatsapp_statuses ≡ map untimed_status statuses
        → validate_inputs redelivered ≡ ok valid
        → (again : IngestionSummary) × (ingest_normalized_webhook sources redelivered after
            ≡ ok (again, after))
    unfolding ingest_normalized_webhook ingest_in_transaction
    ingest_redelivered db after s valid h same v =
        let (again, run, created, id) = ingest_repeats sources webhook db after s h in
        let (first, e, r1) = >>=-eq-ok (validate_inputs webhook) _ run in
        let (u, f, r2) =
          >>=-eq-ok
            (check_connection sources webhook.channel
              (find_row connection_key webhook.connection_id after.connections))
            _ r1 in
        let (hash, g, r3) = >>=-eq-ok (payload_sha256 sources webhook.raw_body) _ r2 in
        let (last, r4) =
          event-redelivered hash first.0 first.1 valid.0 valid.1 after after again same created
            r3 in
        (last, rw (v, ingest_normalized_webhook, ingest_in_transaction, f, g) r4)
