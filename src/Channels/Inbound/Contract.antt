-- ===== src/Channels/Inbound/Contract.antt =====
-- What every message that talap/channels/inbound.py accepts is like.
use talap_ml.Common.{
  ◌≤◌, ◌≡◌, refl, ap, ◌∙◌, ◌||◌, not, leb, ok-subst, if-cases, ◌⊎◌, inl, inr, Bool, true, false,
  ◌&&◌, Option, none, some, arith, length, if◌then◌else◌, ok, err, >>=-eq-ok, Bool-cases,
}
use talap_ml.Common.Int.{ℤ}
use talap_ml.Common.Text.{Text, text, text_eq, text_eq_iff, is_empty, strip}
use talap_ml.Common.Pydantic.{
  Validated, str_value, IsStr, IsText, str_value-IsStr, str_value-IsText, is_empty-str_value,
}
use talap_ml.Ingestion.Rows.{MediaReference, NormalizedInboundMessage}
use talap_ml.Channels.Inbound.{
  blank_to_none, max_identifier, identifier, has_valid_body, is_channel, normalized_inbound_message,
}

abbrev pub IsIdentifier : Text → Type 0
IsIdentifier s = IsStr s × (is_empty s ≡ false) × (length s ≤ max_identifier)

-- The body that belongs to a type of message.
pub data HasBody (message_type : Text) : Option Text → Option MediaReference → Type 0 where
  text_body :
      (s : Text) → message_type ≡ text "text" → IsText s → HasBody message_type (some s) none
  media_body :
      (body : Option Text) (media : MediaReference)
      → (message_type ≡ text "voice") ⊎ (message_type ≡ text "image")
      → HasBody message_type body (some media)
  no_body : message_type ≡ text "unsupported" → HasBody message_type none none

pub record IsContract (m : NormalizedInboundMessage) : Type 0 where
  pub is_global : m.business_scope ≡ text "talap_global"
  pub known_channel : is_channel m.channel ≡ true
  pub chat : IsIdentifier m.external_chat_id
  pub user : IsIdentifier m.external_user_id
  pub message_id : IsIdentifier m.external_message_id
  pub body : HasBody m.message_type m.text m.media

identifier-IsIdentifier : (s t : Text) → identifier s ≡ ok t → IsIdentifier t
unfolding identifier
identifier-IsIdentifier s t h =
    let (value, e, h1) = >>=-eq-ok (str_value s) _ h in
    elim (if-cases (is_empty value || not (leb (length value) max_identifier)) _ _ h1) [
      | inl (b, k) ↦ absurd cc
      | inr (b, k) ↦
          ok-subst IsIdentifier k (str_value-IsStr s value e, ground (arith, b), ground (arith, b))
    ]

blank_to_none-IsText : (body : Option Text) (s : Text) → blank_to_none body ≡ ok (some s) → IsText s
unfolding blank_to_none
blank_to_none-IsText none s h = absurd cc
blank_to_none-IsText (some b) s h = elim (if-cases (is_empty (strip b)) _ _ h) [
  | inl (e, k) ↦ absurd cc
  | inr (e, k) ↦
      let (value, v, k1) = >>=-eq-ok (str_value b) _ k in
      let text_value : IsText value =
        str_value-IsText b value v (is_empty-str_value b value v ∙ e) in
      let same : value ≡ s = cc k1 in rw (← same) text_value
]

media_type :
    (message_type : Text) (body : Option Text) (media : MediaReference)
    → has_valid_body message_type body (some media) ≡ true
    → (message_type ≡ text "voice") ⊎ (message_type ≡ text "image")
unfolding has_valid_body
media_type t body media h = elim (Bool-cases (text_eq t (text "voice"))) [
  | inl e ↦ inl ((text_eq_iff t (text "voice")).0 e)
  | inr e ↦ inr ((text_eq_iff t (text "image")).0 (ground (arith, e)))
]

text_type :
    (message_type : Text) (s : Text)
    → has_valid_body message_type (some s) none ≡ true
    → message_type ≡ text "text"
unfolding has_valid_body
text_type t s h = (text_eq_iff t (text "text")).0 (ground arith)

no_body_type :
    (message_type : Text)
    → has_valid_body message_type none none ≡ true
    → message_type ≡ text "unsupported"
unfolding has_valid_body
no_body_type t h = (text_eq_iff t (text "unsupported")).0 (ground arith)

has_valid_body-HasBody :
    (message_type : Text) (body : Option Text) (media : Option MediaReference)
    → ((s : Text) → body ≡ some s → IsText s)
    → has_valid_body message_type body media ≡ true
    → HasBody message_type body media
has_valid_body-HasBody t body (some media) trimmed h =
    media_body body media (media_type t body media h)
has_valid_body-HasBody t (some s) none trimmed h = text_body s (text_type t s h) (trimmed s refl)
has_valid_body-HasBody t none none trimmed h = no_body (no_body_type t h)

if_ok :
    {A : Type 0} (b : Bool) (x y : A)
    → ◌≡◌ {A = Validated A} (if b then ok x else err tt) (ok y)
    → (b ≡ true) × (x ≡ y)
if_ok true x y h = (refl, cc)
if_ok false x y h = cc

-- An accepted message is global, of a known channel, has trimmed identifiers of 1 to 512 characters,
-- and has the body that belongs to its type.
pub normalized_inbound_message-IsContract :
    (channel chat user message_id message_type : Text) (body : Option Text)
    (media : Option MediaReference) (received_at : ℤ) (m : NormalizedInboundMessage)
    → normalized_inbound_message channel chat user message_id message_type body media received_at
      ≡ ok m
    → IsContract m × (m.channel ≡ channel)
unfolding normalized_inbound_message
normalized_inbound_message-IsContract channel chat user message_id t body media at m h =
    let (c, ec, h1) = >>=-eq-ok (identifier chat) _ h in
    let (u, eu, h2) = >>=-eq-ok (identifier user) _ h1 in
    let (i, ei, h3) = >>=-eq-ok (identifier message_id) _ h2 in
    let (b, eb, h4) = >>=-eq-ok (blank_to_none body) _ h3 in
    let (valid, same) = if_ok (is_channel channel && has_valid_body t b media) _ m h4 in
    rw (← same) (
      record {
        is_global = refl;
        known_channel = ground (arith, valid);
        chat = identifier-IsIdentifier chat c ec;
        user = identifier-IsIdentifier user u eu;
        message_id = identifier-IsIdentifier message_id i ei;
        body =
            has_valid_body-HasBody t b media
              (λ s is_some. blank_to_none-IsText body s (eb ∙ ap ok is_some))
              (ground (arith, valid));
      },
      refl,
    )
