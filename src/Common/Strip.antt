-- ===== src/Common/Strip.antt =====
-- Trimming texts: what is trimmed stays as it is, also where less counts as a space.
use Prim.Native.Nat.{ℕ}
use mathlib.Core.Path.{◌≡◌, refl}
use mathlib.Core.Logic.{inl, inr}
use mathlib.Core.Bool.{Bool, true, false, not}
use mathlib.Core.List.{[], ◌∷◌}
use native.Mathlib.Omega.{arith}
use talap_ml.Common.Tests.{Bool-cases}
use talap_ml.Common.Lists.{any}
use talap_ml.Common.Text.{Text, is_empty, is_space, trim_start, trim_end, trim, strip}

module _ (narrow wide : ℕ → Bool) (narrower : (c : ℕ) → wide c ≡ false → narrow c ≡ false) where
  trim_end-trim_end : (s : Text) → trim_end narrow (trim_end wide s) ≡ trim_end wide s
  unfolding trim_end
  trim_end-trim_end [] = refl
  trim_end-trim_end (c ∷ s) = ground (arith, trim_end-trim_end s, narrower c)

  trim_start-trim :
      (s : Text)
      → trim_start narrow (trim_end wide (trim_start wide s)) ≡ trim_end wide (trim_start wide s)
  unfolding trim_start trim_end
  trim_start-trim [] = refl
  trim_start-trim (c ∷ s) = elim (Bool-cases (wide c)) [
    | inl e ↦ rw e (trim_start-trim s)
    | inr e ↦ ground (arith, e, narrower c e)
  ]

  pub trim-trim : (s : Text) → trim narrow (trim wide s) ≡ trim wide s
  unfolding trim
  trim-trim s = rw (trim_start-trim s) (trim_end-trim_end (trim_start wide s))

pub trim_idem : (space : ℕ → Bool) (s : Text) → trim space (trim space s) ≡ trim space s
trim_idem space = trim-trim space space (λ c h. h)

-- A text has something left exactly where it has more than spaces.
module _ (space : ℕ → Bool) where
  is_empty-trim_end : (s : Text) → is_empty (trim_end space s) ≡ not (any (λ c. not (space c)) s)
  unfolding trim_end
  is_empty-trim_end [] = refl
  is_empty-trim_end (c ∷ s) = ground (arith, is_empty-trim_end s)

  pub is_empty-trim : (s : Text) → is_empty (trim space s) ≡ not (any (λ c. not (space c)) s)
  unfolding trim trim_start
  is_empty-trim [] = refl
  is_empty-trim (c ∷ s) = elim (Bool-cases (space c)) [
    | inl e ↦ rw e (is_empty-trim s)
    | inr e ↦ rw (e, is_empty-trim_end (c ∷ s), e) refl
  ]

  -- What is no space stays.
  module _ (p : ℕ → Bool) (kept : (c : ℕ) → p c ≡ true → space c ≡ false) where
    any-trim_end : (s : Text) → any p (trim_end space s) ≡ any p s
    unfolding trim_end
    any-trim_end [] = refl
    any-trim_end (c ∷ s) = ground (arith, any-trim_end s, kept c, is_empty-trim_end s)

    pub any-trim : (s : Text) → any p (trim space s) ≡ any p s
    unfolding trim trim_start
    any-trim [] = refl
    any-trim (c ∷ s) = elim (Bool-cases (space c)) [
      | inl e ↦ ground (arith, e, any-trim s, kept c)
      | inr e ↦ rw e (any-trim_end (c ∷ s))
    ]

-- Stripped, with something left.
abbrev pub IsTrimmed : Text → Type 0
IsTrimmed s = (strip s ≡ s) × (is_empty s ≡ false)

pub strip-IsTrimmed : (s : Text) → is_empty (strip s) ≡ false → IsTrimmed (strip s)
unfolding strip
strip-IsTrimmed s h = (trim_idem is_space s, h)
