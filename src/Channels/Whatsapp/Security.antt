-- ===== src/Channels/Whatsapp/Security.antt =====
-- talap/channels/whatsapp/security.py: the challenge token and the signature of a webhook.
use talap_ml.Common.{
  ℕ, Bool, ◌&&◌, not, Option, none, some, List, [], ◌∷◌, any, ltb, length, ◌==◌, if◌then◌else◌,
  Result, ok, err,
}
use talap_ml.Common.Text.{Text, text, text_eq}
use talap_ml.Channels.Inbound.{is_hex_digit}

-- what `hmac.compare_digest` raises on a text that is not ASCII
pub data TypeError : Type 0 where
  not_ascii : TypeError

-- WhatsAppWebhookSecurityError
pub data SecurityError : Type 0 where
  malformed_signature : SecurityError

abbrev pub is_ascii : Text → Bool
is_ascii s = not (any (λ c. not (ltb c 128)) s)

abbrev pub compare_digest : Text → Text → Result TypeError Bool
compare_digest a b = if is_ascii a && is_ascii b then ok (text_eq a b) else err not_ascii

unfoldable pub verify_whatsapp_challenge_token : Text → Text → Result TypeError Bool
verify_whatsapp_challenge_token provided_token expected_token =
    compare_digest provided_token expected_token

-- the rest of `s` after `prefix`
unfoldable pub remove_prefix : Text → Text → Option Text
remove_prefix [] s = some s
remove_prefix (c ∷ prefix) [] = none
remove_prefix (c ∷ prefix) (d ∷ s) =
    let rest = remove_prefix prefix s in if c == d then rest else none

-- the digest of a header that `_SIGNATURE_PATTERN` matches
unfoldable pub signature_digest : Text → Option Text
signature_digest header = elim (remove_prefix (text "sha256=") header) [
  | none ↦ none
  | some digest ↦
      if length digest == 64 && not (any (λ c. not (is_hex_digit c)) digest)
      then some digest
      else none
]

-- The digest is ASCII, and so is the hexadecimal HMAC, so that they are compared as texts.
module _ (hmac_sha256 : Text → List ℕ → Text) where
  unfoldable pub verify_whatsapp_signature : List ℕ → Text → Text → Result SecurityError Bool
  verify_whatsapp_signature raw_body signature_header app_secret =
      elim (signature_digest signature_header) [
        | none ↦ err malformed_signature
        | some provided ↦ ok (text_eq provided (hmac_sha256 app_secret raw_body))
      ]
