-- ===== src/Common/Least.antt =====
-- The row that `ORDER BY … LIMIT 1` returns.
use mathlib.Core.Path.{◌≡◌, refl}
use mathlib.Core.Logic.{◌⊎◌, inl, inr}
use mathlib.Core.Bool.{Bool, true, false}
use mathlib.Core.Option.{none, some}
use mathlib.Core.List.{List, [], ◌∷◌}
use talap_ml.Common.Lists.{
  All, All-weaken, first, select, All-select, All-of_select, All-select_self,
}
use talap_ml.Common.Sorting.{
  IsTotalOrder, IsSorted, order_by, All-order_by, All-of_order_by, order_by-IsSorted, before_self,
}

module _ {A : Type 0} (before : A → A → Bool) (P : A → Type 0) (p : A → Bool) where
  -- A row with `P` that passes the test, and comes before every other row that passes it.
  abbrev pub IsLeast : List A → A → Type 0
  IsLeast rows x = P x × (p x ≡ true) × All (λ y. p y ≡ true → before x y ≡ true) rows

  All-of_ordered :
      (Q : A → Type 0) (rows l : List A)
      → order_by before (select p rows) ≡ l
      → All Q l
      → All (λ y. p y ≡ true → Q y) rows
  All-of_ordered Q rows l e h =
      All-of_select Q p rows (All-of_order_by before Q (select p rows) (rw e h))

  All-ordered :
      (Q : A → Type 0) (rows l : List A)
      → order_by before (select p rows) ≡ l
      → All Q (select p rows)
      → All Q l
  All-ordered Q rows l e h = rw e at (All-order_by before Q (select p rows) h)

  module _ (order : IsTotalOrder before) (rows : List A) (held : All P rows) where
    IsFirst : List A → Type 0
    IsFirst l =
        ((first l ≡ none) × All (λ y. p y ≡ false) rows)
        ⊎ ((x : A) × (first l ≡ some x) × IsLeast rows x)

    IsFirst-of_sorted :
        (l : List A) → order_by before (select p rows) ≡ l → IsSorted before order l → IsFirst l
    unfolding IsFirst
    IsFirst-of_sorted [] e s = inl (
      refl,
      All-weaken (λ y. p y ≡ true → ⊥) (λ y. p y ≡ false) (λ y h. false_of (p y) h) rows
          (All-of_ordered (λ _. ⊥) rows [] e tt),
    )
      where
        false_of : (b : Bool) → (b ≡ true → ⊥) → b ≡ false
        false_of true h = absurd (h refl)
        false_of false h = refl
    IsFirst-of_sorted (x ∷ l) e s = inr (
      x,
      refl,
      (
        (All-ordered P rows (x ∷ l) e (All-select P p rows held)).0,
        (All-ordered (λ y. p y ≡ true) rows (x ∷ l) e (All-select_self p rows)).0,
        All-of_ordered (λ y. before x y ≡ true) rows (x ∷ l) e (before_self before order x, s.0),
      ),
    )

    -- Either no row passes the test, or the first of the ordered rows is the least.
    pub first-order_by :
        ((first (order_by before (select p rows)) ≡ none) × All (λ y. p y ≡ false) rows)
        ⊎ ((x : A) × (first (order_by before (select p rows)) ≡ some x) × IsLeast rows x)
    unfolding IsFirst
    first-order_by =
        IsFirst-of_sorted (order_by before (select p rows)) refl
          (order_by-IsSorted before order (select p rows))
