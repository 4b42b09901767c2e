-- ===== src/Common/Table.antt =====
-- A database table as the list of its rows, which are found and updated by their primary key.
use Prim.Native.Nat.{ℕ, ◌≤◌}
use mathlib.Core.Path.{◌≡◌, refl}
use mathlib.Core.Logic.{inl, inr}
use mathlib.Core.Option
use mathlib.Core.Option.{Option, none, some}
use mathlib.Core.List.{List, [], ◌∷◌, ◌++◌}
use native.Mathlib.Omega.{arith}
use talap_ml.Common.Tests.{◌==◌, if◌then◌else◌, Option-cases}
use talap_ml.Common.Lists.{All, All-weaken}

-- A UUID is its 128-bit number; the program only compares UUIDs.
abbrev pub Uuid : Type 0
Uuid = ℕ

module _ {A : Type 0} (id : A → Uuid) where
  -- `session.get(Row, key)`
  unfoldable pub find_row : Uuid → List A → Option A
  find_row k [] = none
  find_row k (x ∷ xs) = if id x == k then some x else find_row k xs

  -- the rows with that key are changed by `f`, as `UPDATE … WHERE id = k` or a flush does
  unfoldable pub update_row : Uuid → (A → A) → List A → List A
  update_row k f [] = []
  update_row k f (x ∷ xs) = (if id x == k then f x else x) ∷ update_row k f xs

  -- The primary key: no two rows share it.
  abbrev pub HasUniqueKeys : List A → Type 0
  HasUniqueKeys [] = Unit
  HasUniqueKeys (x ∷ xs) = (find_row (id x) xs ≡ none) × HasUniqueKeys xs

  -- a column of the row with that key, 0 where there is no such row
  abbrev pub column_of : (A → ℕ) → Uuid → List A → ℕ
  column_of m k rows = elim (find_row k rows) [ none ↦ 0 | some x ↦ m x ]

  pub id-find_row : (k : Uuid) (rows : List A) (x : A) → find_row k rows ≡ some x → id x ≡ k
  unfolding find_row
  id-find_row k [] x h = cc
  id-find_row k (y ∷ ys) x h = ground (arith, id-find_row k ys x)

  pub find_row-append :
      (k : Uuid) (xs ys : List A)
      → find_row k (xs ++ ys) ≡ (elim (find_row k xs) [ none ↦ find_row k ys | some x ↦ some x ])
  unfolding find_row
  find_row-append k [] ys = refl
  find_row-append k (x ∷ xs) ys = ground (arith, find_row-append k xs ys)

  -- A unique key finds the row that carries it.
  pub found_of_HasUniqueKeys :
      (rows : List A) → HasUniqueKeys rows → All (λ x. find_row (id x) rows ≡ some x) rows
  unfolding find_row
  found_of_HasUniqueKeys [] u = tt
  found_of_HasUniqueKeys (x ∷ xs) u = (
    ground arith,
    All-weaken (λ y. find_row (id y) xs ≡ some y) (λ y. find_row (id y) (x ∷ xs) ≡ some y)
        (λ y h. ground (arith, u.0, h)) xs (found_of_HasUniqueKeys xs u.1),
  )

  pub find_row-append_fresh :
      (k : Uuid) (rows : List A) (x : A)
      → find_row (id x) rows ≡ none
      → find_row k (rows ++ x ∷ []) ≡ (if id x == k then some x else find_row k rows)
  unfolding find_row
  find_row-append_fresh k [] x fresh = refl
  find_row-append_fresh k (y ∷ ys) x fresh = ground (arith, find_row-append_fresh k ys x)

  -- A new key keeps the keys unique.
  pub append-HasUniqueKeys :
      (rows : List A) (x : A)
      → HasUniqueKeys rows
      → find_row (id x) rows ≡ none
      → HasUniqueKeys (rows ++ x ∷ [])
  unfolding find_row
  append-HasUniqueKeys [] x u fresh = (refl, tt)
  append-HasUniqueKeys (y ∷ ys) x u fresh = (
    ground (arith, u.0, find_row-append (id y) ys (x ∷ [])),
    append-HasUniqueKeys ys x u.1 (ground arith),
  )

module _ {A : Type 0} (id : A → Uuid) (f : A → A) (keeps : (a : A) → id (f a) ≡ id a) where
  pub find_row-update_row :
      (k j : Uuid) (rows : List A)
      → find_row id j (update_row id k f rows)
        ≡ (if k == j then Option.map f (find_row id j rows) else find_row id j rows)
  unfolding find_row update_row
  find_row-update_row k j [] = ground arith
  find_row-update_row k j (x ∷ xs) = ground (arith, find_row-update_row k j xs, keeps x)

  pub update_row-HasUniqueKeys :
      (k : Uuid) (rows : List A) → HasUniqueKeys id rows → HasUniqueKeys id (update_row id k f rows)
  unfolding update_row
  update_row-HasUniqueKeys k [] u = tt
  update_row-HasUniqueKeys k (x ∷ xs) u = (
    ground (arith, u.0, keeps x, find_row-update_row k (id x) xs),
    update_row-HasUniqueKeys k xs u.1,
  )

  pub column_of-update_row :
      (m : A → ℕ)
      → ((a : A) → m a ≤ m (f a))
      → (k j : Uuid) (rows : List A)
      → column_of id m j rows ≤ column_of id m j (update_row id k f rows)
  column_of-update_row m grows k j rows = elim (Option-cases (find_row id j rows)) [
    | inl e ↦ ground (arith, e, find_row-update_row k j rows)
    | inr (x, e) ↦ ground (arith, e, grows x, find_row-update_row k j rows)
  ]
