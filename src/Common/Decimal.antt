-- ===== src/Common/Decimal.antt =====
-- Python's `str(n)`, `str.isdigit` and `int(text)`. Which code points are digits, and of which value, is
-- the Unicode database's; the laws are those of the ASCII digits.
use Prim.Native.Nat.{ℕ, zero, suc, ◌+◌, ◌*◌, ◌/◌, ◌%◌, ◌<◌}
use mathlib.Core.Path.{◌≡◌}
use mathlib.Core.Bool.{Bool, true, not, ◌&&◌}
use mathlib.Core.Option.{Option, none, some}
use mathlib.Core.List.{[], ◌∷◌}
use talap_ml.Common.Tests.{ltb, if◌then◌else◌}
use talap_ml.Common.Lists.{length}
use talap_ml.Common.Text.{Text, is_empty}

-- `fuel` digits are enough for a number below `10 ^ fuel`
unfoldable pub show_onto : ℕ → ℕ → Text → Text
show_onto zero n rest = rest
show_onto (suc fuel) n rest =
    let digit = 48 + n % 10 in
    let more = show_onto fuel (n / 10) (digit ∷ rest) in if ltb n 10 then digit ∷ rest else more

-- `str(n)`
unfoldable pub show : ℕ → Text
unfolding show_onto
show n = show_onto (suc n) n []

pub record UnicodeDigits : Type 0 where
  -- Numeric_Type is Decimal or Digit
  pub is_digit : ℕ → Bool
  -- the value of a decimal digit
  pub decimal : ℕ → Option ℕ
  pub ascii_is_digit : (d : ℕ) → d < 10 → is_digit (48 + d) ≡ true
  pub ascii_decimal : (d : ℕ) → d < 10 → decimal (48 + d) ≡ some d

-- CPython refuses to convert a text of more digits
abbrev pub max_str_digits : ℕ
max_str_digits = 4300

module _ (unicode : UnicodeDigits) where
  unfoldable pub all_digits : Text → Bool
  all_digits [] = true
  all_digits (c ∷ s) = unicode.is_digit c && all_digits s

  -- `s.isdigit()`
  unfoldable pub isdigit : Text → Bool
  unfolding all_digits
  isdigit s = not (is_empty s) && all_digits s

  unfoldable pub digits_value : ℕ → Text → Option ℕ
  digits_value acc [] = some acc
  digits_value acc (c ∷ s) = elim (unicode.decimal c) [
    | none ↦ none
    | some d ↦ digits_value (acc * 10 + d) s
  ]

  -- `int(s)` of a text of digits; none is ValueError
  unfoldable pub int_of : Text → Option ℕ
  unfolding digits_value
  int_of s = if ltb max_str_digits (length s) then none else digits_value 0 s
