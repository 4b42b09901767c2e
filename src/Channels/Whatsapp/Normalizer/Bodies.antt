-- ===== src/Channels/Whatsapp/Normalizer/Bodies.antt =====
-- Each body of a message of talap/channels/whatsapp/normalizer.py is normalized alike at any two times
-- of receipt.
use talap_ml.Common.{
  refl, Bool, true, false, not, ◌&&◌, Option, none, some, ◌++◌, if◌then◌else◌, ok, err, ◌>>=◌,
}
use talap_ml.Common.Alike.{Alike, >>=-Alike_rest, if-Alike}
use talap_ml.Common.Int.{ℤ, pos}
use talap_ml.Common.Json.{Fields, get, as_object, as_string}
use talap_ml.Common.Text.{Text, text, text_eq}
use talap_ml.Ingestion.Rows.{MediaReference, NormalizedInboundMessage}
use talap_ml.Common.Pydantic.{Validated}
use talap_ml.Channels.Inbound.{
  normalized_inbound_message, identifier, is_channel, has_valid_body, blank_to_none,
}
use talap_ml.Channels.Whatsapp.Normalizer.{
  Normalized, Envelope, or_raise, required_string, optional_string, build_media, build_message,
  is_blank, build_unsupported, interactive_reply_message, normalize_text, normalize_audio,
  normalize_reply, normalize_interactive, normalize_body,
}

abbrev pub untimed_message : NormalizedInboundMessage → NormalizedInboundMessage
untimed_message m = record m { received_at = pos 0 }

-- the envelope with another time
abbrev at_time : Envelope → ℤ → Envelope
at_time envelope at = record envelope { received = at }

or_raise-Alike :
    (message : Text) (x y : Validated NormalizedInboundMessage)
    → Alike untimed_message x y
    → Alike untimed_message (or_raise message x) (or_raise message y)
or_raise-Alike message (ok a) (ok b) h = cc
or_raise-Alike message (ok a) (err b) h = absurd cc
or_raise-Alike message (err a) (ok b) h = absurd cc
or_raise-Alike message (err a) (err b) h = refl

normalized_inbound_message-Alike :
    (channel chat user message_id t : Text) (body : Option Text) (media : Option MediaReference)
    (at later : ℤ)
    → Alike untimed_message
        (normalized_inbound_message channel chat user message_id t body media at)
        (normalized_inbound_message channel chat user message_id t body media later)
unfolding normalized_inbound_message
normalized_inbound_message-Alike channel chat user message_id t body media at later =
    >>=-Alike_rest untimed_message (identifier chat) _ _ (λ c.
      >>=-Alike_rest untimed_message (identifier user) _ _ (λ u.
        >>=-Alike_rest untimed_message (identifier message_id) _ _ (λ i.
          >>=-Alike_rest untimed_message (blank_to_none body) _ _ (λ b.
            if-Alike untimed_message (is_channel channel && has_valid_body t b media) _ _ _ _ refl
              refl))))

-- A computation on two envelopes that differ in their time.
abbrev IgnoresTime : (ℤ → Normalized NormalizedInboundMessage) → Type 0
IgnoresTime f = (at later : ℤ) → Alike untimed_message (f at) (f later)

module _ (envelope : Envelope) where
  build_message-IgnoresTime :
      (t : Text) (body : Option Text) (media : Option MediaReference)
      → IgnoresTime (λ at. build_message (at_time envelope at) t body media)
  unfolding build_message
  build_message-IgnoresTime t body media at later = or_raise-Alike _ _ _ (
      normalized_inbound_message-Alike (text "whatsapp") envelope.sender envelope.sender
        envelope.message_id t body media at later)

  if-IgnoresTime :
      (b : Bool) (f g : ℤ → Normalized NormalizedInboundMessage)
      → IgnoresTime f
      → IgnoresTime g
      → IgnoresTime (λ at. if b then f at else g at)
  if-IgnoresTime true f g hf hg = hf
  if-IgnoresTime false f g hf hg = hg

  >>=-IgnoresTime :
      {A : Type 0} (x : Normalized A) (f : A → ℤ → Normalized NormalizedInboundMessage)
      → ((a : A) → IgnoresTime (f a))
      → IgnoresTime (λ at. x >>= λ a. f a at)
  >>=-IgnoresTime (ok a) f h = h a
  >>=-IgnoresTime (err e) f h = λ at later. refl

  interactive_reply_message-IgnoresTime :
      (reply_id title : Option Text)
      → IgnoresTime (λ at. interactive_reply_message (at_time envelope at) reply_id title)
  unfolding interactive_reply_message build_unsupported
  interactive_reply_message-IgnoresTime reply_id title =
      if-IgnoresTime (not (is_blank reply_id)) _ _ (build_message-IgnoresTime _ _ _) (
        if-IgnoresTime (not (is_blank title)) _ _ (build_message-IgnoresTime _ _ _)
          (build_message-IgnoresTime _ _ _))

  normalize_reply-IgnoresTime :
      (key : Text) (fields : Fields)
      → IgnoresTime (λ at. normalize_reply key (at_time envelope at) fields)
  unfolding normalize_reply
  normalize_reply-IgnoresTime key fields =
      >>=-IgnoresTime (as_object (key ++ text " must be a mapping.") (get key fields)) _ (λ reply.
        >>=-IgnoresTime (optional_string (get (text "id") reply) (key ++ text ".id")) _ (λ reply_id.
          >>=-IgnoresTime (optional_string (get (text "title") reply) (key ++ text ".title")) _
            (λ title. interactive_reply_message-IgnoresTime reply_id title)))

  normalize_interactive-IgnoresTime :
      (fields : Fields) → IgnoresTime (λ at. normalize_interactive (at_time envelope at) fields)
  unfolding normalize_interactive build_unsupported
  normalize_interactive-IgnoresTime fields =
      >>=-IgnoresTime
        (as_object (text "interactive must be a mapping.") (get (text "interactive") fields)) _
        (λ interactive.
          >>=-IgnoresTime
            (as_string (text "interactive.type must be a string.") (get (text "type") interactive))
            _
            (λ t.
              if-IgnoresTime (text_eq t (text "button_reply")) _ _
                (normalize_reply-IgnoresTime (text "button_reply") interactive)
                (if-IgnoresTime (text_eq t (text "list_reply")) _ _
                  (normalize_reply-IgnoresTime (text "list_reply") interactive)
                  (build_message-IgnoresTime _ _ _))))

  normalize_text-IgnoresTime :
      (fields : Fields) → IgnoresTime (λ at. normalize_text (at_time envelope at) fields)
  unfolding normalize_text
  normalize_text-IgnoresTime fields =
      >>=-IgnoresTime (as_object (text "text must be a mapping.") (get (text "text") fields)) _
        (λ text_object.
          >>=-IgnoresTime
            (as_string (text "text.body must be a string.") (get (text "body") text_object)) _
            (λ body. build_message-IgnoresTime (text "text") (some body) none))

  normalize_audio-IgnoresTime :
      (fields : Fields) → IgnoresTime (λ at. normalize_audio (at_time envelope at) fields)
  unfolding normalize_audio
  normalize_audio-IgnoresTime fields =
      >>=-IgnoresTime (as_object (text "audio must be a mapping.") (get (text "audio") fields)) _
        (λ audio.
          >>=-IgnoresTime (required_string (get (text "id") audio) (text "audio.id")) _ (λ audio_id.
            >>=-IgnoresTime
              (optional_string (get (text "mime_type") audio) (text "audio.mime_type")) _
              (λ mime_type.
                >>=-IgnoresTime (optional_string (get (text "sha256") audio) (text "audio.sha256"))
                  _
                  (λ sha256.
                    >>=-IgnoresTime (build_media audio_id mime_type sha256) _
                      (λ media. build_message-IgnoresTime (text "voice") none (some media))))))

  pub normalize_body-IgnoresTime :
      (t : Text) (fields : Fields)
      → IgnoresTime (λ at. normalize_body t (at_time envelope at) fields)
  unfolding normalize_body build_unsupported
  normalize_body-IgnoresTime t fields =
      if-IgnoresTime (text_eq t (text "text")) _ _ (normalize_text-IgnoresTime fields) (
        if-IgnoresTime (text_eq t (text "audio")) _ _ (normalize_audio-IgnoresTime fields) (
          if-IgnoresTime (text_eq t (text "interactive")) _ _
            (normalize_interactive-IgnoresTime fields) (build_message-IgnoresTime _ _ _)))
