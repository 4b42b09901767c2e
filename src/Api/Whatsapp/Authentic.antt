-- ===== src/Api/Whatsapp/Authentic.antt =====
-- Only a signed webhook changes the tables.
use talap_ml.Common.{
  ℕ, ◌≡◌, refl, ap, ◌∙◌, ◌⊎◌, inl, inr, true, false, Option, some, List, [], ◌∷◌, ◌++◌, arith, ok,
  Result-cases, Bool-cases, Option-cases, if-cases, ◌==◌, ==_iff,
}
use talap_ml.Common.Int.{ℤ}
use talap_ml.Common.Text.{Text, text, text_eq_iff, is_empty}
use talap_ml.Common.Table.{Uuid}
use talap_ml.Common.Decimal.{UnicodeDigits}
use talap_ml.Common.Json.{Json, null, boolean, integer, real, string, array, object}
use talap_ml.Ingestion.{ingest_normalized_webhook}
use talap_ml.Ingestion.Rows.{InboundDatabase, Sources}
use talap_ml.Channels.Whatsapp.Normalizer.{normalize_whatsapp_webhook}
use talap_ml.Channels.Whatsapp.Security.{remove_prefix, signature_digest, verify_whatsapp_signature}
use talap_ml.Api.Whatsapp.{
  Reply, Settings, Codecs, received, webhook_of, receive_payload, receive_body, whatsapp_webhook,
}

remove_prefix_sound :
    (prefix s rest : Text) → remove_prefix prefix s ≡ some rest → s ≡ prefix ++ rest
unfolding remove_prefix
remove_prefix_sound [] s rest h = ground arith
remove_prefix_sound (c ∷ prefix) [] rest h = absurd (ground arith)
remove_prefix_sound (c ∷ prefix) (d ∷ s) rest h = elim (if-cases (c == d) _ _ h) [
  | inl (e, k) ↦ rw ((==_iff c d).0 e, remove_prefix_sound prefix s rest k) refl
  | inr (e, k) ↦ absurd cc
]

signature_digest_sound :
    (header digest : Text)
    → signature_digest header ≡ some digest
    → header ≡ text "sha256=" ++ digest
unfolding signature_digest
signature_digest_sound header digest h =
    elim (Option-cases (remove_prefix (text "sha256=") header)) [
      | inl e ↦ absurd (ground (arith, e))
      | inr (d, e) ↦
          let same : d ≡ digest = ground (arith, e) in
          remove_prefix_sound (text "sha256=") header digest (e ∙ ap some same)
    ]

module _ (codecs : Codecs) (unicode : UnicodeDigits) (sources : Sources) where
  -- A signature with the account's secret, over the exact bytes of the body.
  abbrev pub IsSigned : Settings → Option Text → List ℕ → Type 0
  IsSigned settings header raw_body =
      (secret : Text) × (settings.app_secret ≡ some secret)
      × (header ≡ some (text "sha256=" ++ codecs.hmac_sha256 secret raw_body))

  verify_whatsapp_signature-IsSigned :
      (raw_body : List ℕ) (header secret : Text)
      → verify_whatsapp_signature codecs.hmac_sha256 raw_body header secret ≡ ok true
      → header ≡ text "sha256=" ++ codecs.hmac_sha256 secret raw_body
  unfolding verify_whatsapp_signature
  verify_whatsapp_signature-IsSigned raw_body header secret h =
      elim (Option-cases (signature_digest header)) [
        | inl e ↦ absurd (ground (arith, e))
        | inr (d, e) ↦
            signature_digest_sound header d e
            ∙ ap (λ t. text "sha256=" ++ t)
                ((text_eq_iff d (codecs.hmac_sha256 secret raw_body)).0 (ground (arith, e)))
      ]

  -- A reply without a change, or the one of a webhook that was stored.
  abbrev Replies : InboundDatabase → Reply × InboundDatabase → Type 0
  Replies db r = (r.1 ≡ db) ⊎ (r.0 ≡ received)

  receive_payload-Replies :
      (connection_id : Uuid) (raw_body : List ℕ) (payload : Json) (at : ℤ) (db : InboundDatabase)
      → Replies db (receive_payload codecs unicode sources connection_id raw_body payload at db)
  unfolding receive_payload
  receive_payload-Replies connection_id raw_body payload at db =
      elim (Result-cases (normalize_whatsapp_webhook unicode payload at)) [
        | inr (x, e) ↦ rw (e, receive_payload) (inl refl)
        | inl (r, e) ↦
            elim (Result-cases (
              ingest_normalized_webhook sources
                (webhook_of codecs unicode sources connection_id raw_body payload at r) db)) [
                  | inl (s, f) ↦ rw (e, receive_payload, f) (inr refl)
                  | inr (x, f) ↦ rw (e, receive_payload, f) (inl refl)
                ]
      ]

  receive_json-Replies :
      (connection_id : Uuid) (raw_body : List ℕ) (at : ℤ) (db : InboundDatabase)
      → Replies db (receive_body codecs unicode sources connection_id raw_body at db)
  unfolding receive_body
  receive_json-Replies connection_id raw_body at db = elim (Bool-cases (is_empty raw_body)) [
    | inl e ↦ rw (e, receive_body) (inl refl)
    | inr e ↦ elim (Option-cases (codecs.loads raw_body)) [
      | inl f ↦ rw (e, receive_body, f) (inl refl)
      | inr (object fields, f) ↦
          rw (e, receive_body, f)
            (receive_payload-Replies connection_id raw_body (object fields) at db)
      | inr (null, f) ↦ rw (e, receive_body, f) (inl refl)
      | inr (boolean b, f) ↦ rw (e, receive_body, f) (inl refl)
      | inr (integer n, f) ↦ rw (e, receive_body, f) (inl refl)
      | inr (real r, f) ↦ rw (e, receive_body, f) (inl refl)
      | inr (string s, f) ↦ rw (e, receive_body, f) (inl refl)
      | inr (array xs, f) ↦ rw (e, receive_body, f) (inl refl)
    ]
  ]

  -- A webhook changes the tables only where its header is the signature of the exact body with
  -- the secret of the account, and it is then answered with 200.
  pub whatsapp_webhook-IsSigned :
      (settings : Settings) (header : Option Text) (raw_body : List ℕ) (at : ℤ)
      (db : InboundDatabase)
      → let r = whatsapp_webhook codecs unicode sources settings header raw_body at db in
        (r.1 ≡ db) ⊎ (IsSigned settings header raw_body × (r.0 ≡ received))
  unfolding whatsapp_webhook
  whatsapp_webhook-IsSigned settings header raw_body at db =
      elim (Option-cases settings.app_secret) [
        | inl e ↦ rw (e, whatsapp_webhook) (inl refl)
        | inr (secret, e) ↦ elim (Option-cases settings.connection_id) [
          | inl f ↦ rw (e, whatsapp_webhook, f) (inl refl)
          | inr (connection_id, f) ↦ elim (Option-cases header) [
            | inl g ↦ rw (e, whatsapp_webhook, f, g) (inl refl)
            | inr (h, g) ↦
                elim (Result-cases
                  (verify_whatsapp_signature codecs.hmac_sha256 raw_body h secret)) [
                    | inr (x, v) ↦ rw (e, whatsapp_webhook, f, g, v) (inl refl)
                    | inl (false, v) ↦ rw (e, whatsapp_webhook, f, g, v) (inl refl)
                    | inl (true, v) ↦
                        let signed = verify_whatsapp_signature-IsSigned raw_body h secret v in
                        elim (receive_json-Replies connection_id raw_body at db) [
                          | inl same ↦ rw (e, whatsapp_webhook, f, g, v) (inl same)
                          | inr answered ↦
                              rw (e, whatsapp_webhook, f, g, v)
                                (inr ((secret, refl, ap some signed), answered))
                        ]
                  ]
          ]
        ]
      ]
