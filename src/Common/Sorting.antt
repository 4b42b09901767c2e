-- ===== src/Common/Sorting.antt =====
-- `ORDER BY` as an insertion sort by a Boolean order on rows.
use mathlib.Core.Path.{◌≡◌}
use mathlib.Core.Logic.{inl, inr}
use mathlib.Core.Bool.{Bool, true, false}
use mathlib.Core.List.{List, [], ◌∷◌}
use talap_ml.Common.Tests.{if◌then◌else◌, Bool-cases}
use talap_ml.Common.Lists.{All, All-weaken}

module _ {A : Type 0} (before : A → A → Bool) where
  unfoldable pub insert : A → List A → List A
  insert x [] = x ∷ []
  insert x (y ∷ ys) = let rest = insert x ys in if before x y then x ∷ y ∷ ys else y ∷ rest

  unfoldable pub order_by : List A → List A
  unfolding insert
  order_by [] = []
  order_by (x ∷ xs) = insert x (order_by xs)

-- Rows that are ordered: what every row has, the ordered rows have, and the other way round.
module _ {A : Type 0} (before : A → A → Bool) (P : A → Type 0) where
  pub All-insert : (x : A) (ys : List A) → P x → All P ys → All P (insert before x ys)
  unfolding insert
  All-insert x [] h k = (h, tt)
  All-insert x (y ∷ ys) h k = elim (Bool-cases (before x y)) [
    | inl e ↦ rw e (h, k)
    | inr e ↦ rw e (k.0, All-insert x ys h k.1)
  ]

  All-of_insert : (x : A) (ys : List A) → All P (insert before x ys) → P x × All P ys
  unfolding insert
  All-of_insert x [] h = h
  All-of_insert x (y ∷ ys) h = elim (Bool-cases (before x y)) [
    | inl e ↦ rw e at h
    | inr e ↦
        let k : P y × All P (insert before x ys) = rw e at h in
        let (hx, hys) = All-of_insert x ys k.1 in (hx, (k.0, hys))
  ]

  pub All-order_by : (xs : List A) → All P xs → All P (order_by before xs)
  unfolding order_by
  All-order_by [] h = tt
  All-order_by (x ∷ xs) h = All-insert x (order_by before xs) h.0 (All-order_by xs h.1)

  pub All-of_order_by : (xs : List A) → All P (order_by before xs) → All P xs
  unfolding order_by
  All-of_order_by [] h = tt
  All-of_order_by (x ∷ xs) h =
      let (hx, hxs) = All-of_insert x (order_by before xs) h in (hx, All-of_order_by xs hxs)

-- A total order that is transitive, as the lexicographic order of the key columns is.
pub record IsTotalOrder {A : Type 0} (before : A → A → Bool) : Type 0 where
  pub flip : (a b : A) → before a b ≡ false → before b a ≡ true
  pub trans : (a b c : A) → before a b ≡ true → before b c ≡ true → before a c ≡ true

module _ {A : Type 0} (before : A → A → Bool) (order : IsTotalOrder before) where
  abbrev pub IsSorted : List A → Type 0
  IsSorted [] = Unit
  IsSorted (x ∷ xs) = All (λ y. before x y ≡ true) xs × IsSorted xs

  insert-IsSorted : (x : A) (ys : List A) → IsSorted ys → IsSorted (insert before x ys)
  unfolding insert
  insert-IsSorted x [] h = (tt, tt)
  insert-IsSorted x (y ∷ ys) h = elim (Bool-cases (before x y)) [
    | inl e ↦
        let behind : All (λ z. before x z ≡ true) ys =
          All-weaken (λ z. before y z ≡ true) (λ z. before x z ≡ true)
            (λ z k. order.trans x y z e k) ys h.0 in
        rw e ((e, behind), h)
    | inr e ↦ rw e (
      All-insert before (λ z. before y z ≡ true) x ys (order.flip x y e) h.0,
      insert-IsSorted x ys h.1,
    )
  ]

  pub order_by-IsSorted : (xs : List A) → IsSorted (order_by before xs)
  unfolding order_by
  order_by-IsSorted [] = tt
  order_by-IsSorted (x ∷ xs) = insert-IsSorted x (order_by before xs) (order_by-IsSorted xs)

  pub before_self : (x : A) → before x x ≡ true
  before_self x = elim (Bool-cases (before x x)) [ inl e ↦ e | inr e ↦ order.flip x x e ]
