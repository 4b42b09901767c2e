-- ===== src/Channels/Whatsapp/Normalizer/Messages.antt =====
-- Each body of a message of talap/channels/whatsapp/normalizer.py becomes a message in the contract.
use talap_ml.Common.{
  ◌≡◌, refl, Bool, true, false, Option, if◌then◌else◌, ok, err, ◌>>=◌, >>=-eq-ok, ok-injective,
}
use talap_ml.Common.Json.{Fields, get, as_object}
use talap_ml.Common.Text.{Text, text}
use talap_ml.Ingestion.Rows.{MediaReference, NormalizedInboundMessage}
use talap_ml.Common.Pydantic.{Validated}
use talap_ml.Channels.Inbound.Contract.{IsContract, normalized_inbound_message-IsContract}
use talap_ml.Channels.Whatsapp.Normalizer.{
  Normalized, Envelope, or_raise, required_string, optional_string, build_media, build_message,
  build_unsupported, interactive_reply_message, normalize_text, normalize_audio, normalize_reply,
  normalize_interactive, normalize_body,
}

abbrev pub IsWhatsapp : NormalizedInboundMessage → Type 0
IsWhatsapp m = IsContract m × (m.channel ≡ text "whatsapp")

or_raise-ok :
    {A : Type 0} (message : Text) (v : Validated A) (a : A) → or_raise message v ≡ ok a → v ≡ ok a
or_raise-ok message (ok b) a h = rw (ok-injective h) refl
or_raise-ok message (err e) a h = cc

pub build_message-IsWhatsapp :
    (envelope : Envelope) (message_type : Text) (body : Option Text) (media : Option MediaReference)
    (m : NormalizedInboundMessage)
    → build_message envelope message_type body media ≡ ok m
    → IsWhatsapp m
unfolding build_message
build_message-IsWhatsapp envelope t body media m h =
    normalized_inbound_message-IsContract (text "whatsapp") envelope.sender envelope.sender
      envelope.message_id t body media envelope.received m (or_raise-ok _ _ m h)

-- A computation that only returns WhatsApp messages.
abbrev pub OnlyWhatsapp : Normalized NormalizedInboundMessage → Type 0
OnlyWhatsapp r = (m : NormalizedInboundMessage) → r ≡ ok m → IsWhatsapp m

pub if-OnlyWhatsapp :
    (b : Bool) (x y : Normalized NormalizedInboundMessage)
    → OnlyWhatsapp x
    → OnlyWhatsapp y
    → OnlyWhatsapp (if b then x else y)
if-OnlyWhatsapp true x y hx hy = hx
if-OnlyWhatsapp false x y hx hy = hy

pub >>=-OnlyWhatsapp :
    {A : Type 0} (r : Normalized A) (f : A → Normalized NormalizedInboundMessage)
    → ((a : A) → OnlyWhatsapp (f a))
    → OnlyWhatsapp (r >>= f)
>>=-OnlyWhatsapp (ok a) f h = h a
>>=-OnlyWhatsapp (err e) f h = λ m k. cc

pub ruleset whatsapp_rules = (>>=-OnlyWhatsapp, if-OnlyWhatsapp, build_message-IsWhatsapp)

interactive_reply_message-OnlyWhatsapp :
    (envelope : Envelope) (reply_id title : Option Text)
    → OnlyWhatsapp (interactive_reply_message envelope reply_id title)
unfolding interactive_reply_message build_unsupported
interactive_reply_message-OnlyWhatsapp envelope reply_id title = search whatsapp_rules

normalize_reply-OnlyWhatsapp :
    (key : Text) (envelope : Envelope) (fields : Fields)
    → OnlyWhatsapp (normalize_reply key envelope fields)
unfolding normalize_reply
normalize_reply-OnlyWhatsapp key envelope fields =
    search (whatsapp_rules, interactive_reply_message-OnlyWhatsapp)

normalize_interactive-OnlyWhatsapp :
    (envelope : Envelope) (fields : Fields) → OnlyWhatsapp (normalize_interactive envelope fields)
unfolding normalize_interactive build_unsupported
normalize_interactive-OnlyWhatsapp envelope fields =
    search (whatsapp_rules, normalize_reply-OnlyWhatsapp)

normalize_text-OnlyWhatsapp :
    (envelope : Envelope) (fields : Fields) → OnlyWhatsapp (normalize_text envelope fields)
unfolding normalize_text
normalize_text-OnlyWhatsapp envelope fields = search whatsapp_rules

normalize_audio-OnlyWhatsapp :
    (envelope : Envelope) (fields : Fields) → OnlyWhatsapp (normalize_audio envelope fields)
unfolding normalize_audio
normalize_audio-OnlyWhatsapp envelope fields m h =
    let (audio, ea, h1) =
      >>=-eq-ok (as_object (text "audio must be a mapping.") (get (text "audio") fields)) _ h in
    let (audio_id, ei, h2) =
      >>=-eq-ok (required_string (get (text "id") audio) (text "audio.id")) _ h1 in
    let (mime_type, et, h3) =
      >>=-eq-ok (optional_string (get (text "mime_type") audio) (text "audio.mime_type")) _ h2 in
    let (sha256, es, h4) =
      >>=-eq-ok (optional_string (get (text "sha256") audio) (text "audio.sha256")) _ h3 in
    let (media, em, h5) = >>=-eq-ok (build_media audio_id mime_type sha256) _ h4 in
    build_message-IsWhatsapp envelope _ _ _ m h5

pub normalize_body-OnlyWhatsapp :
    (message_type : Text) (envelope : Envelope) (fields : Fields)
    → OnlyWhatsapp (normalize_body message_type envelope fields)
unfolding normalize_body build_unsupported
normalize_body-OnlyWhatsapp t envelope fields = search (
  whatsapp_rules, normalize_text-OnlyWhatsapp, normalize_audio-OnlyWhatsapp,
  normalize_interactive-OnlyWhatsapp,
)
