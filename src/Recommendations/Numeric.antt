-- ===== src/Recommendations/Numeric.antt =====
-- Which replies are numeric selections, in talap/recommendations/service.py.
use talap_ml.Common.{
  ℕ, zero, suc, ◌+◌, ◌*◌, ◌/◌, ◌%◌, ◌≤◌, ◌<◌, ◌≡◌, refl, ◌↔◌, inl, inr, true, false, some, [], ◌∷◌,
  arith, length, ltb, Bool-cases, Option-cases, ok,
}
use talap_ml.Common.Text.{Text, text_eq_iff, is_empty}
use talap_ml.Common.Decimal.{
  UnicodeDigits, show, show_onto, isdigit, all_digits, int_of, digits_value, max_str_digits,
}
use talap_ml.Recommendations.{is_numeric_selection}

module _ (unicode : UnicodeDigits) where
  all_digits-show_onto :
      (fuel n : ℕ) (rest : Text)
      → all_digits unicode rest ≡ true
      → all_digits unicode (show_onto fuel n rest) ≡ true
  unfolding show_onto all_digits
  all_digits-show_onto zero n rest h = h
  all_digits-show_onto (suc fuel) n rest h = ground (
    arith,
    unicode.ascii_is_digit (n % 10) (omega arith),
    all_digits-show_onto fuel (n / 10) ((48 + n % 10) ∷ rest),
  )

  -- With enough fuel the printed digits are read back, in front of the rest.
  digits_value-show_onto :
      (fuel n : ℕ) (rest : Text)
      → n < fuel
      → digits_value unicode 0 (show_onto fuel n rest) ≡ digits_value unicode n rest
  unfolding show_onto digits_value
  digits_value-show_onto zero n rest h = absurd (omega arith)
  digits_value-show_onto (suc fuel) n rest h = elim (Bool-cases (ltb n 10)) [
    | inl small ↦
        let digit : 0 * 10 + n % 10 ≡ n = ground arith in
        rw (small, unicode.ascii_decimal (n % 10) (omega arith), digits_value, digit)
    | inr large ↦
        let quotient : n / 10 * 10 + n % 10 ≡ n = omega arith in
        rw (large, digits_value-show_onto fuel (n / 10) ((48 + n % 10) ∷ rest) (ground arith))
          (rw (unicode.ascii_decimal (n % 10) (omega arith), digits_value, quotient))
  ]

  digits_value-show : (n : ℕ) → digits_value unicode 0 (show n) ≡ some n
  unfolding show digits_value
  digits_value-show n = digits_value-show_onto (suc n) n [] (omega arith)

  show_onto-nonempty :
      (fuel n : ℕ) (c : ℕ) (rest : Text) → is_empty (show_onto fuel n (c ∷ rest)) ≡ false
  unfolding show_onto
  show_onto-nonempty zero n c rest = refl
  show_onto-nonempty (suc fuel) n c rest =
      ground (arith, show_onto-nonempty fuel (n / 10) (48 + n % 10) (c ∷ rest))

  isdigit-show : (n : ℕ) → isdigit unicode (show n) ≡ true
  unfolding show isdigit
  isdigit-show n = ground (
    arith,
    unicode.ascii_is_digit (n % 10) (omega arith),
    show_onto-nonempty n (n / 10) (48 + n % 10) [],
    all_digits-show_onto (suc n) n [] refl,
  )

  pub int_of-show : (n : ℕ) → length (show n) ≤ max_str_digits → int_of unicode (show n) ≡ some n
  unfolding int_of
  int_of-show n fits = ground (arith, digits_value-show n)

  length_of_int : (s : Text) (n : ℕ) → int_of unicode s ≡ some n → length s ≤ max_str_digits
  unfolding int_of
  length_of_int s n h = ground arith

  numeric→show :
      (s : Text)
      → is_numeric_selection unicode s ≡ ok true
      → (n : ℕ) × (s ≡ show n) × (length s ≤ max_str_digits)
  unfolding is_numeric_selection
  numeric→show s h = elim (Option-cases (int_of unicode s)) [
    | inl invalid ↦ absurd (ground (arith, invalid))
    | inr (n, e) ↦ (n, (text_eq_iff s (show n)).0 (ground (arith, e)), length_of_int s n e)
  ]

  pub show→numeric :
      (n : ℕ) → length (show n) ≤ max_str_digits → is_numeric_selection unicode (show n) ≡ ok true
  unfolding is_numeric_selection
  show→numeric n fits = rw (
    isdigit-show n,
    int_of-show n fits,
    is_numeric_selection,
    (text_eq_iff (show n) (show n)).1 refl,
  )

  -- A reply is a numeric selection exactly where it is the decimal print of a number and no
  -- longer than the digits that CPython converts.
  pub is_numeric_selection_iff :
      (s : Text)
      → (is_numeric_selection unicode s ≡ ok true)
        ↔ ((n : ℕ) × (s ≡ show n) × (length s ≤ max_str_digits))
  is_numeric_selection_iff s =
      (numeric→show s, λ (n, e, fits). rw e (show→numeric n (rw e at fits)))
