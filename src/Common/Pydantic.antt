-- ===== src/Common/Pydantic.antt =====
-- The text that pydantic makes of a `str` under `str_strip_whitespace`: it trims the white space of
-- Unicode, which is without the separators 28 to 31 that `str.strip` drops too, and refuses lone
-- surrogates with a ValidationError.
use Prim.Native.Nat.{ℕ}
use mathlib.Core.Path.{◌≡◌, refl}
use mathlib.Core.Logic.{inl, inr}
use mathlib.Core.Bool.{Bool, true, false, ◌&&◌, not}
use native.Mathlib.Omega.{arith}
use talap_ml.Common.Tests.{leb, if◌then◌else◌, if-cases}
use talap_ml.Common.Lists.{any}
use talap_ml.Common.Outcome.{Result, ok, err, ok-subst}
use talap_ml.Common.Text.{Text, is_empty, is_space, is_surrogate, trim, strip}
use talap_ml.Common.Strip.{trim_idem, is_empty-trim, any-trim}

-- A ValidationError says nothing that the callers read.
abbrev pub Validated : Type 0 → Type 0
Validated A = Result (Unit {0}) A

unfoldable pub is_white_space : ℕ → Bool
unfolding is_space
is_white_space c = is_space c && not (leb 28 c && leb c 31)

unfoldable pub str_value : Text → Validated Text
unfolding trim
str_value s = if any is_surrogate s then err tt else ok (trim is_white_space s)

-- Trimmed of white space, not blank for `str.strip`, and without lone surrogates.
pub record IsText (s : Text) : Type 0 where
  pub trimmed : trim is_white_space s ≡ s
  pub has_text : is_empty (strip s) ≡ false
  pub encodable : any is_surrogate s ≡ false

-- A value of `str` that is accepted is trimmed and encodable.
pub record IsStr (s : Text) : Type 0 where
  pub trimmed : trim is_white_space s ≡ s
  pub encodable : any is_surrogate s ≡ false

surrogate-is_white_space : (c : ℕ) → is_surrogate c ≡ true → is_white_space c ≡ false
unfolding is_surrogate is_white_space is_space
surrogate-is_white_space c h = ground arith

pub str_value-IsStr : (s t : Text) → str_value s ≡ ok t → IsStr t
unfolding str_value
str_value-IsStr s t h = elim (if-cases (any is_surrogate s) _ _ h) [
  | inl (e, k) ↦ absurd cc
  | inr (e, k) ↦ ok-subst IsStr k (record {
    trimmed = trim_idem is_white_space s;
    encodable = rw (any-trim is_white_space is_surrogate surrogate-is_white_space s) e;
  })
]

-- What is not blank is not blank as the value either.
pub str_value-IsText : (s t : Text) → str_value s ≡ ok t → is_empty (strip t) ≡ false → IsText t
str_value-IsText s t h e =
    let v = str_value-IsStr s t h in
    record { trimmed = v.trimmed; has_text = e; encodable = v.encodable }

letter-is_white_space : (c : ℕ) → not (is_space c) ≡ true → is_white_space c ≡ false
unfolding is_white_space
letter-is_white_space c h = ground arith

pub is_empty-str_value : (s t : Text) → str_value s ≡ ok t → is_empty (strip t) ≡ is_empty (strip s)
unfolding str_value strip
is_empty-str_value s t h = elim (if-cases (any is_surrogate s) _ _ h) [
  | inl (e, k) ↦ absurd cc
  | inr (e, k) ↦
      ok-subst (λ u. is_empty (trim is_space u) ≡ is_empty (trim is_space s)) k
        (rw
          (
            is_empty-trim is_space (trim is_white_space s),
            is_empty-trim is_space s,
            any-trim is_white_space (λ c. not (is_space c)) letter-is_white_space s,
          )
          refl)
]
