-- ===== src/Api/Whatsapp/Redelivery.antt =====
-- A webhook that Meta delivers again to apps/api/routes/whatsapp_webhook.py.
use talap_ml.Common.{
  ℕ, ◌≡◌, refl, sym, ap, ◌≢◌, inl, inr, true, false, Option, some, List, [], ◌∷◌, any, arith, ok,
  >>=-eq-ok, Result-cases, Bool-cases, Option-cases, All,
}
use talap_ml.Common.Alike.{Alike-ok}
use talap_ml.Common.Int.{ℤ}
use talap_ml.Common.Text.{Text, text, text_eq, text_eq_iff, is_empty}
use talap_ml.Common.Table.{Uuid}
use talap_ml.Common.Decimal.{UnicodeDigits}
use talap_ml.Common.Json.{Json, null, boolean, integer, real, string, array, object}
use talap_ml.Ingestion.{ingest_normalized_webhook, validate_inputs, invalid_message}
use talap_ml.Ingestion.Rows.{
  InboundDatabase, Sources, NormalizedInboundMessage, IngestionError, connection_not_found,
  connection_inactive, connection_mismatch, validation_error, execution_error,
}
use talap_ml.Ingestion.Redelivery.{
  ingest_redelivered, has_negative_code, ingested_has_no_negative_code,
}
use talap_ml.Channels.Whatsapp.Normalizer.{NormalizationResult, normalize_whatsapp_webhook}
use talap_ml.Channels.Whatsapp.Normalizer.Messages.{IsWhatsapp}
use talap_ml.Channels.Whatsapp.Normalizer.Accepted.{normalize_whatsapp_webhook-IsAccepted}
use talap_ml.Channels.Whatsapp.Normalizer.Times.{untimed, normalize_whatsapp_webhook-Alike}
use talap_ml.Channels.Whatsapp.Security.{verify_whatsapp_signature}
use talap_ml.Api.Whatsapp.{
  Reply, reply, uncaught, Settings, Codecs, received, error_reply, webhook_of, receive_payload,
  receive_body, whatsapp_webhook,
}

accepted_messages :
    (messages : List NormalizedInboundMessage)
    → All IsWhatsapp messages
    → any (invalid_message (text "whatsapp")) messages ≡ false
accepted_messages [] h = refl
accepted_messages (m ∷ messages) h =
    let is_channel = (text_eq_iff m.channel (text "whatsapp")).1 h.0.1 in
    let is_scope = (text_eq_iff m.business_scope (text "talap_global")).1 h.0.0.is_global in
    rw (is_channel, is_scope) (accepted_messages messages h.1)

module _ (codecs : Codecs) (unicode : UnicodeDigits) (sources : Sources) where
  -- What the normalizer returns passes the validation of the ingestion, where the body is not
  -- empty and the payload can be stored as JSON.
  pub normalized-validates :
      (connection_id : Uuid) (raw_body : List ℕ) (payload : Json) (at : ℤ) (r : NormalizationResult)
      (stored : Text)
      → normalize_whatsapp_webhook unicode payload at ≡ ok r
      → is_empty raw_body ≡ false
      → codecs.dumps payload ≡ some stored
      → validate_inputs (webhook_of codecs unicode sources connection_id raw_body payload at r)
        ≡ ok (stored, at)
  unfolding validate_inputs text_eq
  normalized-validates connection_id raw_body payload at r stored h full dumped =
      rw
        (
          full,
          validate_inputs,
          dumped,
          accepted_messages r.messages
              (normalize_whatsapp_webhook-IsAccepted unicode payload at r h).0,
        )
        refl

  -- A webhook that passed was not empty and could be stored.
  validated :
      (connection_id : Uuid) (raw_body : List ℕ) (payload : Json) (at : ℤ) (r : NormalizationResult)
      (v : Text × ℤ)
      → validate_inputs (webhook_of codecs unicode sources connection_id raw_body payload at r)
        ≡ ok v
      → (is_empty raw_body ≡ false) × (stored : Text) × (codecs.dumps payload ≡ some stored)
  unfolding validate_inputs text_eq
  validated connection_id raw_body payload at r v h = elim (Bool-cases (is_empty raw_body)) [
    | inl e ↦ absurd (ground (arith, e))
    | inr e ↦ elim (Option-cases (codecs.dumps payload)) [
      | inl f ↦ absurd (ground (arith, e, f))
      | inr (stored, f) ↦ (e, stored, f)
    ]
  ]

  not_received : (status : ℕ) (detail : Text) → status ≢ 200 → reply status detail ≢ received
  not_received status detail h e = h (ap reply_status e)
    where
      reply_status : Reply → ℕ
      reply_status (reply s d) = s
      reply_status uncaught = 0

  error_reply-not_received : (e : IngestionError) → error_reply e ≢ received
  error_reply-not_received connection_not_found = not_received 503 _ (ground arith)
  error_reply-not_received connection_inactive = not_received 503 _ (ground arith)
  error_reply-not_received connection_mismatch = not_received 503 _ (ground arith)
  error_reply-not_received validation_error = not_received 400 _ (ground arith)
  error_reply-not_received execution_error = not_received 503 _ (ground arith)

  -- A payload that is normalized to a status with a negative error code is never answered with
  -- 200, and none of its messages is stored.
  pub negative_code_refused :
      (connection_id : Uuid) (raw_body : List ℕ) (payload : Json) (at : ℤ) (db : InboundDatabase)
      (r : NormalizationResult)
      → normalize_whatsapp_webhook unicode payload at ≡ ok r
      → any has_negative_code r.statuses ≡ true
      → let answer = receive_payload codecs unicode sources connection_id raw_body payload at db in
        (answer.0 ≢ received) × (answer.1 ≡ db)
  unfolding receive_payload
  negative_code_refused connection_id raw_body payload at db r e negative =
      let webhook = webhook_of codecs unicode sources connection_id raw_body payload at r in
      elim (Result-cases (ingest_normalized_webhook sources webhook db)) [
        | inr (x, f) ↦ rw (e, receive_payload, f) (error_reply-not_received x, refl)
        | inl (stored, f) ↦
            absurd
              (ground (arith, negative, ingested_has_no_negative_code sources webhook db stored f))
      ]

  payload-again :
      (connection_id : Uuid) (raw_body : List ℕ) (payload : Json) (at later : ℤ)
      (db after : InboundDatabase)
      → receive_payload codecs unicode sources connection_id raw_body payload at db
        ≡ (received, after)
      → receive_payload codecs unicode sources connection_id raw_body payload later after
        ≡ (received, after)
  unfolding receive_payload ingest_normalized_webhook
  payload-again connection_id raw_body payload at later db after h =
      elim (Result-cases (normalize_whatsapp_webhook unicode payload at)) [
        | inr (x, e) ↦
            absurd
              (not_received 400 _ (ground arith) (ap (λ p. p.0) (rw (e, receive_payload) at h)))
        | inl (r, e) ↦
            let webhook = webhook_of codecs unicode sources connection_id raw_body payload at r in
            elim (Result-cases (ingest_normalized_webhook sources webhook db)) [
              | inr (x, f) ↦
                  absurd
                    (error_reply-not_received x (ap (λ p. p.0) (rw (e, receive_payload, f) at h)))
              | inl ((s, stored), f) ↦
                  let same : stored ≡ after = ap (λ p. p.1) (rw (e, receive_payload, f) at h) in
                  let (v, g, rest) = >>=-eq-ok (validate_inputs webhook) _ f in
                  let (full, dumped, d) = validated connection_id raw_body payload at r v g in
                  let (r', e', alike) =
                    Alike-ok untimed _ _ r
                      (normalize_whatsapp_webhook-Alike unicode at later payload) e in
                  let valid =
                    normalized-validates connection_id raw_body payload later r' dumped e' full d in
                  let (again, last) =
                    ingest_redelivered sources webhook (codecs.dumps payload) (some later)
                      r'.messages r'.statuses db stored s (dumped, later) f
                      (sym (ap (λ u. u.statuses) alike)) valid in
                  rw (← same) (rw (e', receive_payload, last) refl)
            ]
      ]

  body-again :
      (connection_id : Uuid) (raw_body : List ℕ) (at later : ℤ) (db after : InboundDatabase)
      → receive_body codecs unicode sources connection_id raw_body at db ≡ (received, after)
      → receive_body codecs unicode sources connection_id raw_body later after ≡ (received, after)
  unfolding receive_body
  body-again connection_id raw_body at later db after h = elim (Bool-cases (is_empty raw_body)) [
    | inl e ↦ absurd (not_received 400 _ (ground arith) (ap (λ p. p.0) (rw (e, receive_body) at h)))
    | inr e ↦ elim (Option-cases (codecs.loads raw_body)) [
      | inl f ↦
          absurd (not_received 400 _ (ground arith) (ap (λ p. p.0) (rw (e, receive_body, f) at h)))
      | inr (object fields, f) ↦
          rw (e, receive_body, f)
            (payload-again connection_id raw_body (object fields) at later db after
              (rw (e, receive_body, f) at h))
      | inr (null, f) ↦
          absurd (not_received 400 _ (ground arith) (ap (λ p. p.0) (rw (e, receive_body, f) at h)))
      | inr (boolean b, f) ↦
          absurd (not_received 400 _ (ground arith) (ap (λ p. p.0) (rw (e, receive_body, f) at h)))
      | inr (integer n, f) ↦
          absurd (not_received 400 _ (ground arith) (ap (λ p. p.0) (rw (e, receive_body, f) at h)))
      | inr (real r, f) ↦
          absurd (not_received 400 _ (ground arith) (ap (λ p. p.0) (rw (e, receive_body, f) at h)))
      | inr (string s, f) ↦
          absurd (not_received 400 _ (ground arith) (ap (λ p. p.0) (rw (e, receive_body, f) at h)))
      | inr (array xs, f) ↦
          absurd (not_received 400 _ (ground arith) (ap (λ p. p.0) (rw (e, receive_body, f) at h)))
    ]
  ]

  unsigned :
      (db after : InboundDatabase) (status : ℕ) (detail : Text)
      → status ≢ 200
      → ◌≢◌ {A = Reply × InboundDatabase} (reply status detail, db) (received, after)
  unsigned db after status detail h e = not_received status detail h (ap (λ p. p.0) e)

  -- A webhook that was answered with 200, delivered again at any time, is answered with 200 and
  -- changes nothing.
  pub whatsapp_webhook-redelivered :
      (settings : Settings) (header : Option Text) (raw_body : List ℕ) (at later : ℤ)
      (db after : InboundDatabase)
      → whatsapp_webhook codecs unicode sources settings header raw_body at db ≡ (received, after)
      → whatsapp_webhook codecs unicode sources settings header raw_body later after
        ≡ (received, after)
  unfolding whatsapp_webhook
  whatsapp_webhook-redelivered settings header raw_body at later db after h =
      elim (Option-cases settings.app_secret) [
        | inl e ↦ absurd (unsigned db after 503 _ (ground arith) (rw (e, whatsapp_webhook) at h))
        | inr (secret, e) ↦ elim (Option-cases settings.connection_id) [
          | inl f ↦
              absurd (unsigned db after 503 _ (ground arith) (rw (e, whatsapp_webhook, f) at h))
          | inr (connection_id, f) ↦ elim (Option-cases header) [
            | inl g ↦
                absurd
                  (unsigned db after 401 _ (ground arith) (rw (e, whatsapp_webhook, f, g) at h))
            | inr (sent, g) ↦
                elim (Result-cases
                  (verify_whatsapp_signature codecs.hmac_sha256 raw_body sent secret)) [
                    | inr (x, v) ↦ absurd (
                        unsigned db after 401 _ (ground arith)
                          (rw (e, whatsapp_webhook, f, g, v) at h))
                    | inl (false, v) ↦ absurd (
                        unsigned db after 401 _ (ground arith)
                          (rw (e, whatsapp_webhook, f, g, v) at h))
                    | inl (true, v) ↦
                        rw (e, whatsapp_webhook, f, g, v)
                          (body-again connection_id raw_body at later db after
                            (rw (e, whatsapp_webhook, f, g, v) at h))
                  ]
          ]
        ]
      ]
