-- ===== src/Embeddings/Jina/Retries.antt =====
-- The retry loop of talap/embeddings/jina.py.
use talap_ml.Common.{
  ℕ, zero, suc, ◌+◌, ◌≤◌, ◌≡◌, refl, ap, false, length, arith, All, Result, err, Bool-cases, inl,
  inr, ◌⊎◌,
}
use talap_ml.Common.Text.{Text}
use talap_ml.Indexing.Rows.{EmbeddingResult}
use talap_ml.Embeddings.Jina.{
  Floats, JinaError, embedding_error, Exchange, Attempt, done, retryable, minimum, embed_once,
  ClientSettings, embed_from,
}

pub Attempt-cases :
    {F : Type 0} (a : Attempt F)
    → ((r : Result JinaError (EmbeddingResult F)) × (a ≡ done r))
      ⊎ ((m : Text) × (d : F) × (a ≡ retryable m d))
Attempt-cases (done r) = inl (r, refl)
Attempt-cases (retryable m d) = inr (m, d, refl)

module _ {F : Type 0} (floats : Floats F) (settings : ClientSettings) where
  abbrev pub attempt : Exchange → Attempt F
  attempt answer = embed_once floats settings.model settings.dimensions answer

  -- The first `n` answers may be tried again.
  abbrev pub IsRetried : ℕ → (ℕ → Exchange) → Type 0
  IsRetried zero answers = Unit
  IsRetried (suc n) answers =
      ((m : Text) × (d : F) × (attempt (answers 0) ≡ retryable m d))
      × IsRetried n (λ i. answers (suc i))

  -- How a call ends after its first `n` answers were tried again: with the next one, or without retries left.
  abbrev pub IsEnd : ℕ → ℕ → (ℕ → Exchange) → Result JinaError (EmbeddingResult F) → Type 0
  IsEnd retries n answers result =
      (attempt (answers n) ≡ done result)
      ⊎ ((n ≡ retries)
          × (m : Text) × (d : F) × (attempt (answers n) ≡ retryable m d)
          × (result ≡ err (embedding_error m)))

  IsEnd-suc :
      (retries n : ℕ) (answers : ℕ → Exchange) (result : Result JinaError (EmbeddingResult F))
      → IsEnd retries n (λ i. answers (suc i)) result
      → IsEnd (suc retries) (suc n) answers result
  IsEnd-suc retries n answers result (inl e) = inl e
  IsEnd-suc retries n answers result (inr (same, m, d, last, end)) =
      inr (ap suc same, m, d, last, end)

  abbrev pub IsWithin : F → Type 0
  IsWithin delay = floats.lt floats.max_retry_after delay ≡ false

  minimum-IsWithin :
      floats.lt floats.max_retry_after floats.max_retry_after ≡ false
      → (delay : F) → IsWithin (minimum floats delay floats.max_retry_after)
  minimum-IsWithin irreflexive delay = elim (Bool-cases (floats.lt floats.max_retry_after delay)) [
    | inl e ↦ rw e irreflexive
    | inr e ↦ rw e e
  ]

  -- The retry loop makes one request more than it waits and at most one more than the retries,
  -- where the largest delay is not less than itself: all answers but the last could be tried
  -- again, the last one gives the result, and no delay is longer than the largest.
  pub embed_from_lem :
      floats.lt floats.max_retry_after floats.max_retry_after ≡ false
      → (retries : ℕ) (answers : ℕ → Exchange)
      → let run = embed_from floats settings retries answers in
        (n : ℕ) × (run.requests ≡ n + 1)
        × (n ≤ retries)
        × (length run.delays ≡ n)
        × All IsWithin run.delays
        × IsRetried n answers
        × IsEnd retries n answers run.result
  unfolding embed_from
  embed_from_lem irreflexive zero answers = elim (Attempt-cases (attempt (answers 0))) [
    | inl (r, e) ↦ rw (e, embed_from) (0, refl, omega arith, refl, tt, tt, inl e)
    | inr (m, d, e) ↦
        rw (e, embed_from) (0, refl, omega arith, refl, tt, tt, inr (refl, m, d, e, refl))
  ]
  embed_from_lem irreflexive (suc retries) answers = elim (Attempt-cases (attempt (answers 0))) [
    | inl (r, e) ↦ rw (e, embed_from) (0, refl, omega arith, refl, tt, tt, inl e)
    | inr (m, d, e) ↦
        let (n, requests, bound, waits, within, retried, end) =
          embed_from_lem irreflexive retries (λ i. answers (suc i)) in
        rw (e, embed_from)
          (
            suc n,
            omega (arith, requests),
            omega (arith, bound),
            omega (arith, waits),
            (minimum-IsWithin irreflexive d, within),
            ((m, d, e), retried),
            IsEnd-suc retries n answers _ end,
          )
  ]
