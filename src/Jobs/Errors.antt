-- ===== src/Jobs/Errors.antt =====
-- The error texts that talap/ingestion/jobs.py stores.
use talap_ml.Common.{
  ℕ, zero, suc, ◌≤◌, ◌≡◌, refl, inl, inr, false, [], ◌∷◌, take, length, arith, Bool-cases,
}
use talap_ml.Common.Text.{Text, is_empty, strip}
use talap_ml.Jobs.{sanitize_error_message, max_error_length}

length-take_bound : (n : ℕ) (s : Text) → length (take n s) ≤ n
length-take_bound zero s = omega arith
length-take_bound (suc n) [] = omega arith
length-take_bound (suc n) (c ∷ s) = ground (arith, length-take_bound n s)

is_empty-take : (n : ℕ) (s : Text) → 1 ≤ n → is_empty s ≡ false → is_empty (take n s) ≡ false
is_empty-take zero s h e = absurd (omega arith)
is_empty-take (suc n) [] h e = e
is_empty-take (suc n) (c ∷ s) h e = refl

-- A stored error text is not empty and has at most 500 characters, whatever the message.
pub sanitize_error_message_bounds :
    (message : Text)
    → (is_empty (sanitize_error_message message) ≡ false)
      × (length (sanitize_error_message message) ≤ max_error_length)
unfolding sanitize_error_message
sanitize_error_message_bounds message = elim (Bool-cases (is_empty (strip message))) [
  | inl e ↦ rw (e, sanitize_error_message) (refl, ground arith)
  | inr e ↦
      rw (e, sanitize_error_message)
        (is_empty-take 500 (strip message) (omega arith) e, length-take_bound 500 (strip message))
]
