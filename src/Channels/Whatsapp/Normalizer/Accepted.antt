-- ===== src/Channels/Whatsapp/Normalizer/Accepted.antt =====
-- What talap/channels/whatsapp/normalizer.py returns, and that the ingestion takes it.
use talap_ml.Common.{
  ◌≡◌, refl, ◌⊎◌, inl, inr, true, not, List, [], ◌∷◌, ◌++◌, if◌then◌else◌, ok, >>=-eq-ok,
  Bool-cases, All, All-append, ok-subst, if-cases,
}
use talap_ml.Common.Int.{ℤ}
use talap_ml.Common.Decimal.{UnicodeDigits}
use talap_ml.Common.Json.{Json, Fields, get, as_object, as_string, is_null}
use talap_ml.Common.Text.{Text, text, is_empty, strip}
use talap_ml.Common.Strip.{IsTrimmed, strip-IsTrimmed}
use talap_ml.Ingestion.Rows.{NormalizedInboundMessage, DeliveryStatusEvent}
use talap_ml.Channels.Whatsapp.Normalizer.{
  NormalizationResult, required_string, non_blank, normalize_customer_message, normalize_status,
  extract_error_codes, resolve_received_at, is_known_status, is_string, append_results,
  list_or_none, required_list, normalize_messages, normalize_statuses, normalize_value,
  normalize_change, normalize_changes, normalize_entries, normalize_whatsapp_webhook,
}
use talap_ml.Channels.Whatsapp.Normalizer.Messages.{
  IsWhatsapp, OnlyWhatsapp, whatsapp_rules, normalize_body-OnlyWhatsapp,
}

pub record IsStatus (s : DeliveryStatusEvent) : Type 0 where
  pub message_id : IsTrimmed s.external_message_id
  pub recipient : IsTrimmed s.recipient_id
  pub status : (is_known_status s.status ≡ true) ⊎ (s.status ≡ text "unknown")

abbrev pub IsAccepted : NormalizationResult → Type 0
IsAccepted r = All IsWhatsapp r.messages × All IsStatus r.statuses

required_string-IsTrimmed :
    (value : Json) (label s : Text) → required_string value label ≡ ok s → IsTrimmed s
unfolding required_string
required_string-IsTrimmed value label s h =
    let (raw, e, h1) = >>=-eq-ok (as_string (label ++ text " must be a string.") value) _ h in
    elim (if-cases (is_empty (strip raw)) _ _ h1) [
      | inl (b, k) ↦ absurd cc
      | inr (b, k) ↦ ok-subst IsTrimmed k (strip-IsTrimmed raw b)
    ]

strip-of-IsTrimmed : (s : Text) → IsTrimmed s → IsTrimmed (strip s)
strip-of-IsTrimmed s h = rw (h.0) h

module _ (unicode : UnicodeDigits) where
  normalize_customer_message-OnlyWhatsapp :
      (fields : Fields) (received_at : ℤ)
      → OnlyWhatsapp (normalize_customer_message unicode fields received_at)
  unfolding normalize_customer_message
  normalize_customer_message-OnlyWhatsapp fields at =
      search (whatsapp_rules, normalize_body-OnlyWhatsapp)

  mapped_status :
      (s : Text)
      → let mapped = if is_known_status s then s else text "unknown" in
        (is_known_status mapped ≡ true) ⊎ (mapped ≡ text "unknown")
  mapped_status s = elim (Bool-cases (is_known_status s)) [
    | inl e ↦ inl (rw (e, e) refl)
    | inr e ↦ inr (rw e refl)
  ]

  normalize_status-IsStatus :
      (fields : Fields) (received_at : ℤ) (s : DeliveryStatusEvent)
      → normalize_status unicode fields received_at ≡ ok s
      → IsStatus s
  unfolding normalize_status
  normalize_status-IsStatus fields at s h =
      let (i, ei, h1) =
        >>=-eq-ok (required_string (get (text "id") fields) (text "status.id")) _ h in
      let (r, er, h2) =
        >>=-eq-ok (required_string (get (text "recipient_id") fields) (text "status.recipient_id"))
          _ h1 in
      let (v, ev, h3) =
        >>=-eq-ok (non_blank (text "status.status is required.") (get (text "status") fields)) _
          h2 in
      let (t, et, h4) =
        >>=-eq-ok (resolve_received_at unicode fields (text "status.timestamp") at) _ h3 in
      let (c, ec, h5) = >>=-eq-ok (extract_error_codes (get (text "errors") fields)) _ h4 in
      ok-subst IsStatus h5 (record {
        message_id = strip-of-IsTrimmed i (required_string-IsTrimmed _ _ i ei);
        recipient = strip-of-IsTrimmed r (required_string-IsTrimmed _ _ r er);
        status = mapped_status v;
      })

  normalize_messages-IsWhatsapp :
      (raws : List Json) (received_at : ℤ) (messages : List NormalizedInboundMessage)
      → normalize_messages unicode raws received_at ≡ ok messages
      → All IsWhatsapp messages
  unfolding normalize_messages
  normalize_messages-IsWhatsapp [] at messages h = ok-subst (All IsWhatsapp) h tt
  normalize_messages-IsWhatsapp (raw ∷ raws) at messages h =
      let (fields, ef, h1) = >>=-eq-ok (as_object (text "message must be a mapping.") raw) _ h in
      let (m, em, h2) = >>=-eq-ok (normalize_customer_message unicode fields at) _ h1 in
      let (ms, es, h3) = >>=-eq-ok (normalize_messages unicode raws at) _ h2 in
      ok-subst (All IsWhatsapp) h3 (
        normalize_customer_message-OnlyWhatsapp fields at m em,
        normalize_messages-IsWhatsapp raws at ms es,
      )

  normalize_statuses-IsStatus :
      (raws : List Json) (received_at : ℤ) (statuses : List DeliveryStatusEvent)
      → normalize_statuses unicode raws received_at ≡ ok statuses
      → All IsStatus statuses
  unfolding normalize_statuses
  normalize_statuses-IsStatus [] at statuses h = ok-subst (All IsStatus) h tt
  normalize_statuses-IsStatus (raw ∷ raws) at statuses h =
      let (fields, ef, h1) = >>=-eq-ok (as_object (text "status must be a mapping.") raw) _ h in
      let (s, es, h2) = >>=-eq-ok (normalize_status unicode fields at) _ h1 in
      let (rest, er, h3) = >>=-eq-ok (normalize_statuses unicode raws at) _ h2 in
      ok-subst (All IsStatus) h3
        (normalize_status-IsStatus fields at s es, normalize_statuses-IsStatus raws at rest er)

  normalize_value-IsAccepted :
      (value : Fields) (received_at : ℤ) (r : NormalizationResult)
      → normalize_value unicode value received_at ≡ ok r
      → IsAccepted r
  unfolding normalize_value
  normalize_value-IsAccepted value at r h =
      let (rm, erm, h1) =
        >>=-eq-ok (list_or_none (text "messages must be a list.") (get (text "messages") value)) _
          h in
      let (ms, ems, h2) = >>=-eq-ok (normalize_messages unicode rm at) _ h1 in
      let (rs, ers, h3) =
        >>=-eq-ok (list_or_none (text "statuses must be a list.") (get (text "statuses") value)) _
          h2 in
      let (ss, ess, h4) = >>=-eq-ok (normalize_statuses unicode rs at) _ h3 in
      ok-subst IsAccepted h4
        (normalize_messages-IsWhatsapp rm at ms ems, normalize_statuses-IsStatus rs at ss ess)

  normalize_change-IsAccepted :
      (change : Json) (received_at : ℤ) (r : NormalizationResult)
      → normalize_change unicode change received_at ≡ ok r
      → IsAccepted r
  unfolding normalize_change
  normalize_change-IsAccepted change at r h =
      let (fields, ef, h1) = >>=-eq-ok (as_object (text "change must be a mapping.") change) _ h in
      elim (if-cases (is_string (text "messages") (get (text "field") fields)) _ _ h1) [
        | inr (b, k) ↦ ok-subst IsAccepted k (tt, tt)
        | inl (b, k) ↦ elim (if-cases (is_null (get (text "value") fields)) _ _ k) [
          | inl (c, l) ↦ absurd cc
          | inr (c, l) ↦
              let (value, ev, l1) =
                >>=-eq-ok
                  (as_object (text "change.value must be a mapping.") (get (text "value") fields)) _
                  l in
              normalize_value-IsAccepted value at r l1
        ]
      ]

  append-IsAccepted :
      (a b : NormalizationResult) → IsAccepted a → IsAccepted b → IsAccepted (append_results a b)
  append-IsAccepted a b ha hb = (
    All-append IsWhatsapp a.messages b.messages ha.0 hb.0,
    All-append IsStatus a.statuses b.statuses ha.1 hb.1,
  )

  normalize_changes-IsAccepted :
      (changes : List Json) (received_at : ℤ) (r : NormalizationResult)
      → normalize_changes unicode changes received_at ≡ ok r
      → IsAccepted r
  unfolding normalize_changes
  normalize_changes-IsAccepted [] at r h = ok-subst IsAccepted h (tt, tt)
  normalize_changes-IsAccepted (c ∷ changes) at r h =
      let (a, ea, h1) = >>=-eq-ok (normalize_change unicode c at) _ h in
      let (b, eb, h2) = >>=-eq-ok (normalize_changes unicode changes at) _ h1 in
      ok-subst IsAccepted h2 (
        append-IsAccepted a b (normalize_change-IsAccepted c at a ea)
          (normalize_changes-IsAccepted changes at b eb))

  normalize_entries-IsAccepted :
      (entries : List Json) (received_at : ℤ) (r : NormalizationResult)
      → normalize_entries unicode entries received_at ≡ ok r
      → IsAccepted r
  unfolding normalize_entries
  normalize_entries-IsAccepted [] at r h = ok-subst IsAccepted h (tt, tt)
  normalize_entries-IsAccepted (e ∷ entries) at r h =
      let (fields, ef, h1) = >>=-eq-ok (as_object (text "entry items must be mappings.") e) _ h in
      let (cs, ec, h2) =
        >>=-eq-ok
          (required_list (text "entry.changes is required.") (text "changes must be a list.")
            (get (text "changes") fields))
          _ h1 in
      let (a, ea, h3) = >>=-eq-ok (normalize_changes unicode cs at) _ h2 in
      let (b, eb, h4) = >>=-eq-ok (normalize_entries unicode entries at) _ h3 in
      ok-subst IsAccepted h4 (
        append-IsAccepted a b (normalize_changes-IsAccepted cs at a ea)
          (normalize_entries-IsAccepted entries at b eb))

  pub normalize_whatsapp_webhook-IsAccepted :
      (payload : Json) (received_at : ℤ) (r : NormalizationResult)
      → normalize_whatsapp_webhook unicode payload received_at ≡ ok r
      → IsAccepted r
  unfolding normalize_whatsapp_webhook
  normalize_whatsapp_webhook-IsAccepted payload at r h =
      let (fields, ef, h1) =
        >>=-eq-ok (as_object (text "Payload must be a mapping.") payload) _ h in
      elim (if-cases
        (not (is_string (text "whatsapp_business_account") (get (text "object") fields))) _ _ h1) [
          | inl (b, k) ↦ absurd cc
          | inr (b, k) ↦
              let (entries, ee, k1) =
                >>=-eq-ok
                  (required_list (text "entry is required.") (text "entry must be a list.")
                    (get (text "entry") fields))
                  _ k in
              normalize_entries-IsAccepted entries at r k1
        ]
