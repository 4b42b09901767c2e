-- ===== src/Common/Batch.antt =====
-- The rows that `ORDER BY … LIMIT n` returns, and their update one by one.
use mathlib.Core.Path.{◌≡◌, refl, ap, sym}
use mathlib.Core.Logic.{◌≢◌, ◌⊎◌, inl, inr}
use mathlib.Core.Bool.{Bool, true}
use mathlib.Core.Option.{none, some}
use mathlib.Core.List.{List, [], ◌∷◌}
use Prim.Native.Nat.{ℕ, zero, suc}
use native.Mathlib.Omega.{arith}
use talap_ml.Common.Tests.{Bool-cases}
use talap_ml.Common.Lists.{
  All, All-every, All-both, All-weaken, All-select, All-take, length, take, select,
}
use talap_ml.Common.Sorting.{IsTotalOrder, IsSorted, insert, order_by, All-insert, All-order_by}
use talap_ml.Common.Table.{Uuid, find_row, update_row, HasUniqueKeys, find_row-update_row}

module _ {A : Type 0} (id : A → Uuid) where
  -- No row has the key.
  abbrev pub Lacks : Uuid → List A → Type 0
  Lacks k rows = All (λ y. id y ≢ k) rows

  pub find_row_of_Lacks : (k : Uuid) (rows : List A) → Lacks k rows → find_row id k rows ≡ none
  unfolding find_row
  find_row_of_Lacks k [] h = refl
  find_row_of_Lacks k (x ∷ xs) h = ground (arith, h.0, find_row_of_Lacks k xs h.1)

  pub Lacks-of_find_row : (k : Uuid) (rows : List A) → find_row id k rows ≡ none → Lacks k rows
  unfolding find_row
  Lacks-of_find_row k [] h = tt
  Lacks-of_find_row k (x ∷ xs) h = (ground arith, Lacks-of_find_row k xs (ground arith))

  pub select-HasUniqueKeys :
      (p : A → Bool) (rows : List A) → HasUniqueKeys id rows → HasUniqueKeys id (select p rows)
  select-HasUniqueKeys p [] u = tt
  select-HasUniqueKeys p (x ∷ xs) u = elim (Bool-cases (p x)) [
    | inl e ↦ rw e (
      find_row_of_Lacks (id x) (select p xs)
          (All-select (λ y. id y ≢ id x) p xs (Lacks-of_find_row (id x) xs u.0)),
      select-HasUniqueKeys p xs u.1,
    )
    | inr e ↦ rw e (select-HasUniqueKeys p xs u.1)
  ]

  pub take-HasUniqueKeys :
      (n : ℕ) (rows : List A) → HasUniqueKeys id rows → HasUniqueKeys id (take n rows)
  take-HasUniqueKeys zero rows u = tt
  take-HasUniqueKeys (suc n) [] u = tt
  take-HasUniqueKeys (suc n) (x ∷ xs) u = (
    find_row_of_Lacks (id x) (take n xs)
        (All-take (λ y. id y ≢ id x) n xs (Lacks-of_find_row (id x) xs u.0)),
    take-HasUniqueKeys n xs u.1,
  )

  module _ (before : A → A → Bool) where
    insert-HasUniqueKeys :
        (x : A) (ys : List A)
        → Lacks (id x) ys
        → HasUniqueKeys id ys
        → HasUniqueKeys id (insert before x ys)
    unfolding insert
    insert-HasUniqueKeys x [] fresh u = (find_row_of_Lacks (id x) [] tt, tt)
    insert-HasUniqueKeys x (y ∷ ys) fresh u = elim (Bool-cases (before x y)) [
      | inl e ↦ rw e (find_row_of_Lacks (id x) (y ∷ ys) fresh, u)
      | inr e ↦ rw e (
        find_row_of_Lacks (id y) (insert before x ys) (
            All-insert before (λ z. id z ≢ id y) x ys (λ q. fresh.0 (sym q))
              (Lacks-of_find_row (id y) ys u.0)),
        insert-HasUniqueKeys x ys fresh.1 u.1,
      )
    ]

    pub order_by-HasUniqueKeys :
        (rows : List A) → HasUniqueKeys id rows → HasUniqueKeys id (order_by before rows)
    unfolding order_by
    order_by-HasUniqueKeys [] u = tt
    order_by-HasUniqueKeys (x ∷ xs) u =
        insert-HasUniqueKeys x (order_by before xs)
          (All-order_by before (λ y. id y ≢ id x) xs (Lacks-of_find_row (id x) xs u.0))
          (order_by-HasUniqueKeys xs u.1)

    -- `y` is among the first `n` rows, or they are `n` rows that all come before it.
    abbrev pub IsServed : ℕ → List A → A → Type 0
    IsServed n firsts y =
        (find_row id (id y) firsts ≡ some y)
        ⊎ ((length firsts ≡ n) × All (λ x. before x y ≡ true) firsts)

    IsServed-behind :
        (n : ℕ) (firsts : List A) (x y : A)
        → IsServed n firsts y
        → before x y ≡ true
        → id y ≢ id x
        → IsServed (suc n) (x ∷ firsts) y
    unfolding find_row
    IsServed-behind n firsts x y (inl e) b ne = inl (ground arith)
    IsServed-behind n firsts x y (inr (full, all)) b ne = inr (ap suc full, (b, all))

    module _ (order : IsTotalOrder before) where
      pub take-IsServed :
          (n : ℕ) (rows : List A)
          → IsSorted before order rows
          → HasUniqueKeys id rows
          → All (IsServed n (take n rows)) rows
      unfolding find_row
      take-IsServed n [] s u = tt
      take-IsServed zero (x ∷ xs) s u = All-every (IsServed zero []) (λ y. inr (refl, tt)) (x ∷ xs)
      take-IsServed (suc n) (x ∷ xs) s u = (
        inl (ground arith),
        All-weaken (λ y. IsServed n (take n xs) y × ((before x y ≡ true) × (id y ≢ id x)))
            (IsServed (suc n) (x ∷ take n xs))
            (λ y h. IsServed-behind n (take n xs) x y h.0 h.1.0 h.1.1) xs
            (All-both (IsServed n (take n xs)) (λ y. (before x y ≡ true) × (id y ≢ id x)) xs
              (take-IsServed n xs s.1 u.1)
              (All-both (λ y. before x y ≡ true) (λ y. id y ≢ id x) xs s.0
                (Lacks-of_find_row (id x) xs u.0))),
      )

  -- A batch of rows of the table is updated one row at a time.
  unfoldable pub update_all : (A → A) → List A → List A → List A
  unfolding update_row
  update_all f [] rows = rows
  update_all f (x ∷ xs) rows = update_all f xs (update_row id (id x) f rows)

  module _ (f : A → A) (keeps : (a : A) → id (f a) ≡ id a) where
    found_after :
        (x : A) (xs rows : List A)
        → find_row id (id x) xs ≡ none
        → All (λ y. find_row id (id y) rows ≡ some y) xs
        → All (λ y. find_row id (id y) (update_row id (id x) f rows) ≡ some y) xs
    found_after x xs rows fresh found =
        All-weaken (λ y. (id y ≢ id x) × (find_row id (id y) rows ≡ some y))
          (λ y. find_row id (id y) (update_row id (id x) f rows) ≡ some y)
          (λ y h. ground (arith, h.0, h.1, find_row-update_row id f keeps (id x) (id y) rows)) xs
          (All-both (λ y. id y ≢ id x) (λ y. find_row id (id y) rows ≡ some y) xs
            (Lacks-of_find_row (id x) xs fresh) found)

    pub find_row-update_all :
        (batch rows : List A)
        → HasUniqueKeys id batch
        → All (λ x. find_row id (id x) rows ≡ some x) batch
        → (k : Uuid)
        → find_row id k (update_all f batch rows)
          ≡ (elim (find_row id k batch) [ none ↦ find_row id k rows | some x ↦ some (f x) ])
    unfolding update_all find_row
    find_row-update_all [] rows u found k = refl
    find_row-update_all (x ∷ xs) rows u found k = ground (
      arith,
      u.0,
      found.0,
      find_row-update_row id f keeps (id x) k rows,
      find_row-update_all xs (update_row id (id x) f rows) u.1 (found_after x xs rows u.0 found.1)
          k,
    )
