-- ===== src/Channels/Whatsapp/Normalizer/Times.antt =====
-- The time of receipt that talap/channels/whatsapp/normalizer.py is given shows in times only: Bodies
-- is about one message whose envelope is read.
use talap_ml.Common.{◌≡◌, refl, ap, not, List, [], ◌∷◌, map, ok, ◌>>=◌, Option-cases, inl, inr}
use mathlib.Core.List.{map-append}
use talap_ml.Common.Alike.{Alike, >>=-Alike, >>=-Alike_rest, if-Alike}
use talap_ml.Common.Int.{ℤ, pos}
use talap_ml.Common.Decimal.{UnicodeDigits}
use talap_ml.Common.Json.{Json, Fields, get, find_field, as_object, is_null}
use talap_ml.Common.Text.{Text, text}
use talap_ml.Ingestion.Rows.{DeliveryStatusEvent}
use talap_ml.Channels.Whatsapp.Normalizer.{
  Normalized, NormalizationResult, required_string, non_blank, normalize_customer_message,
  normalize_status, extract_error_codes, resolve_received_at, is_string, append_results,
  list_or_none, required_list, normalize_messages, normalize_statuses, normalize_value,
  normalize_change, normalize_changes, normalize_entries, normalize_whatsapp_webhook,
}
use talap_ml.Channels.Whatsapp.Normalizer.Bodies.{untimed_message, normalize_body-IgnoresTime}

abbrev pub untimed_status : DeliveryStatusEvent → DeliveryStatusEvent
untimed_status s = record s { occurred_at = pos 0 }

abbrev pub untimed : NormalizationResult → NormalizationResult
untimed r = record {
  messages = map untimed_message r.messages;
  statuses = map untimed_status r.statuses;
}

abbrev the_time : ℤ → Unit {0}
the_time at = tt

module _ (unicode : UnicodeDigits) (at later : ℤ) where
  resolve_received_at-Alike :
      (fields : Fields) (label : Text)
      → Alike the_time
          (resolve_received_at unicode fields label at)
          (resolve_received_at unicode fields label later)
  unfolding resolve_received_at
  resolve_received_at-Alike fields label =
      elim (Option-cases (find_field (text "timestamp") fields)) [
        | inl e ↦ rw (e, resolve_received_at) refl
        | inr (value, e) ↦ rw (e, resolve_received_at) refl
      ]

  normalize_customer_message-Alike :
      (fields : Fields)
      → Alike untimed_message
          (normalize_customer_message unicode fields at)
          (normalize_customer_message unicode fields later)
  unfolding normalize_customer_message
  normalize_customer_message-Alike fields =
      >>=-Alike_rest untimed_message (required_string (get (text "id") fields) (text "message.id"))
        _ _
        (λ message_id.
          >>=-Alike_rest untimed_message
            (required_string (get (text "from") fields) (text "message.from")) _ _
            (λ sender.
              >>=-Alike the_time untimed_message _ _ _ _
                (resolve_received_at-Alike fields (text "message.timestamp"))
                (λ a b same.
                  >>=-Alike_rest untimed_message
                    (non_blank (text "message.type is required.") (get (text "type") fields)) _ _
                    (λ t.
                      normalize_body-IgnoresTime
                        (record { sender = sender; message_id = message_id; received = pos 0 }) t
                        fields a b))))

  normalize_status-Alike :
      (fields : Fields)
      → Alike untimed_status
          (normalize_status unicode fields at)
          (normalize_status unicode fields later)
  unfolding normalize_status
  normalize_status-Alike fields =
      >>=-Alike_rest untimed_status (required_string (get (text "id") fields) (text "status.id")) _
        _
        (λ status_id.
          >>=-Alike_rest untimed_status
            (required_string (get (text "recipient_id") fields) (text "status.recipient_id")) _ _
            (λ recipient.
              >>=-Alike_rest untimed_status
                (non_blank (text "status.status is required.") (get (text "status") fields)) _ _
                (λ value.
                  >>=-Alike the_time untimed_status _ _ _ _
                    (resolve_received_at-Alike fields (text "status.timestamp"))
                    (λ a b same.
                      >>=-Alike_rest untimed_status
                        (extract_error_codes (get (text "errors") fields)) _ _ (λ codes. refl)))))

  normalize_messages-Alike :
      (raws : List Json)
      → Alike
          (map untimed_message)
          (normalize_messages unicode raws at)
          (normalize_messages unicode raws later)
  unfolding normalize_messages
  normalize_messages-Alike [] = refl
  normalize_messages-Alike (raw ∷ raws) =
      >>=-Alike_rest (map untimed_message) (as_object (text "message must be a mapping.") raw) _ _
        (λ fields.
          >>=-Alike untimed_message (map untimed_message) _ _ _ _
            (normalize_customer_message-Alike fields)
            (λ a b same.
              >>=-Alike (map untimed_message) (map untimed_message) _ _ _ _
                (normalize_messages-Alike raws) (λ rest others all. cc)))

  normalize_statuses-Alike :
      (raws : List Json)
      → Alike
          (map untimed_status)
          (normalize_statuses unicode raws at)
          (normalize_statuses unicode raws later)
  unfolding normalize_statuses
  normalize_statuses-Alike [] = refl
  normalize_statuses-Alike (raw ∷ raws) =
      >>=-Alike_rest (map untimed_status) (as_object (text "status must be a mapping.") raw) _ _
        (λ fields.
          >>=-Alike untimed_status (map untimed_status) _ _ _ _ (normalize_status-Alike fields)
            (λ a b same.
              >>=-Alike (map untimed_status) (map untimed_status) _ _ _ _
                (normalize_statuses-Alike raws) (λ rest others all. cc)))

  normalize_value-Alike :
      (value : Fields)
      → Alike untimed (normalize_value unicode value at) (normalize_value unicode value later)
  unfolding normalize_value
  normalize_value-Alike value =
      >>=-Alike_rest untimed
        (list_or_none (text "messages must be a list.") (get (text "messages") value)) _ _
        (λ raws.
          >>=-Alike (map untimed_message) untimed _ _ _ _ (normalize_messages-Alike raws)
            (λ ms ns same.
              >>=-Alike_rest untimed
                (list_or_none (text "statuses must be a list.") (get (text "statuses") value)) _ _
                (λ raw_statuses.
                  >>=-Alike (map untimed_status) untimed _ _ _ _
                    (normalize_statuses-Alike raw_statuses) (λ ss ts all. cc))))

  normalize_change-Alike :
      (change : Json)
      → Alike untimed (normalize_change unicode change at) (normalize_change unicode change later)
  unfolding normalize_change
  normalize_change-Alike change =
      >>=-Alike_rest untimed (as_object (text "change must be a mapping.") change) _ _ (λ fields.
        if-Alike untimed (is_string (text "messages") (get (text "field") fields)) _ _ _ _
          (if-Alike untimed (is_null (get (text "value") fields)) _ _ _ _ refl (
            >>=-Alike_rest untimed
              (as_object (text "change.value must be a mapping.") (get (text "value") fields)) _ _
              (λ value. normalize_value-Alike value)))
          refl)

  append_results-untimed :
      (a b c d : NormalizationResult)
      → untimed a ≡ untimed b
      → untimed c ≡ untimed d
      → untimed (append_results a c) ≡ untimed (append_results b d)
  append_results-untimed a b c d h k =
      rw
        (
          map-append untimed_message a.messages c.messages,
          map-append untimed_message b.messages d.messages,
          map-append untimed_status a.statuses c.statuses,
          map-append untimed_status b.statuses d.statuses,
        )
        cc

  append-Alike :
      (x y v w : Normalized NormalizationResult)
      → Alike untimed x y
      → Alike untimed v w
      → Alike untimed
          (x >>= λ a. v >>= λ c. ok (append_results a c))
          (y >>= λ b. w >>= λ d. ok (append_results b d))
  append-Alike x y v w h k = >>=-Alike untimed untimed x y _ _ h (λ a b same.
      >>=-Alike untimed untimed v w _ _ k
        (λ c d too. ap ok (append_results-untimed a b c d same too)))

  normalize_changes-Alike :
      (changes : List Json)
      → Alike untimed
          (normalize_changes unicode changes at)
          (normalize_changes unicode changes later)
  unfolding normalize_changes
  normalize_changes-Alike [] = refl
  normalize_changes-Alike (c ∷ changes) =
      append-Alike _ _ _ _ (normalize_change-Alike c) (normalize_changes-Alike changes)

  normalize_entries-Alike :
      (entries : List Json)
      → Alike untimed
          (normalize_entries unicode entries at)
          (normalize_entries unicode entries later)
  unfolding normalize_entries
  normalize_entries-Alike [] = refl
  normalize_entries-Alike (e ∷ entries) =
      >>=-Alike_rest untimed (as_object (text "entry items must be mappings.") e) _ _ (λ fields.
        >>=-Alike_rest untimed
          (required_list (text "entry.changes is required.") (text "changes must be a list.")
            (get (text "changes") fields))
          _ _
          (λ changes.
            append-Alike _ _ _ _ (normalize_changes-Alike changes)
              (normalize_entries-Alike entries)))

  -- A payload is normalized alike at any two times of receipt: to the same error, or to the same
  -- messages and statuses but for their times.
  pub normalize_whatsapp_webhook-Alike :
      (payload : Json)
      → Alike untimed
          (normalize_whatsapp_webhook unicode payload at)
          (normalize_whatsapp_webhook unicode payload later)
  unfolding normalize_whatsapp_webhook
  normalize_whatsapp_webhook-Alike payload =
      >>=-Alike_rest untimed (as_object (text "Payload must be a mapping.") payload) _ _ (λ fields.
        if-Alike untimed
          (not (is_string (text "whatsapp_business_account") (get (text "object") fields))) _ _ _ _
          refl
          (>>=-Alike_rest untimed
            (required_list (text "entry is required.") (text "entry must be a list.")
              (get (text "entry") fields))
            _ _ (λ entries. normalize_entries-Alike entries)))
