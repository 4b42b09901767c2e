-- ===== src/Common/Upsert.antt =====
-- `INSERT … ON CONFLICT (key) DO UPDATE` on a table whose key is unique.
use mathlib.Core.Path.{◌≡◌, refl, sym, ◌∙◌}
use mathlib.Core.Logic.{◌↔◌, inl, inr}
use mathlib.Core.Bool.{Bool, true, false}
use mathlib.Core.Option.{Option, none, some}
use mathlib.Core.List.{List, [], ◌∷◌}
use native.Mathlib.Omega.{arith}
use talap_ml.Common.Tests.{if◌then◌else◌, Bool-cases}
use talap_ml.Common.Lists.{All}

module _ {A K : Type 0} (key : A → K) (eq : K → K → Bool) where
  -- the row with the key `k`
  unfoldable pub lookup : K → List A → Option A
  lookup k [] = none
  lookup k (x ∷ xs) = if eq (key x) k then some x else lookup k xs

  module _ (merge : A → A → A) where
    -- `merge row x` is the stored row `x` with the columns that are set from the proposed `row`
    unfoldable pub upsert_row : A → List A → List A
    upsert_row row [] = row ∷ []
    upsert_row row (x ∷ xs) =
        if eq (key x) (key row) then merge row x ∷ xs else x ∷ upsert_row row xs

    unfoldable pub upsert : List A → List A → List A
    upsert [] table = table
    upsert (row ∷ rows) table = upsert rows (upsert_row row table)

    -- What a proposed row is stored as.
    abbrev pub merged : A → Option A → A
    merged row none = row
    merged row (some x) = merge row x

  -- No row has the key `k`.
  abbrev pub IsFresh : K → List A → Type 0
  IsFresh k rows = All (λ x. eq (key x) k ≡ false) rows

  abbrev pub HasDistinctKeys : List A → Type 0
  HasDistinctKeys [] = Unit
  HasDistinctKeys (x ∷ xs) = IsFresh (key x) xs × HasDistinctKeys xs

  module _ (merge : A → A → A) (eq_iff : (a b : K) → (eq a b ≡ true) ↔ (a ≡ b))
      (keeps : (row x : A) → key (merge row x) ≡ key x) where
    eq_refl : (k : K) → eq k k ≡ true
    eq_refl k = (eq_iff k k).1 refl

    pub lookup-upsert_row :
        (k : K) (row : A) (table : List A)
        → lookup k (upsert_row merge row table) ≡ (
            if eq (key row) k
            then some (merged merge row (lookup (key row) table))
            else lookup k table)
    unfolding lookup upsert_row
    lookup-upsert_row k row [] = refl
    lookup-upsert_row k row (x ∷ xs) = elim (Bool-cases (eq (key x) (key row))) [
      | inl e ↦
          let same = (eq_iff (key x) (key row)).0 e in
          elim (Bool-cases (eq (key row) k)) [
            | inl g ↦ rw (e, keeps row x, same, g) refl
            | inr g ↦ rw (e, keeps row x, same, g) refl
          ]
      | inr e ↦ elim (Bool-cases (eq (key x) k)) [
        | inr f ↦ rw (e, f) (lookup-upsert_row k row xs)
        | inl f ↦ elim (Bool-cases (eq (key row) k)) [
          | inr g ↦ rw (e, f, g) refl
          | inl g ↦
              let same = (eq_iff (key x) k).0 f ∙ sym ((eq_iff (key row) k).0 g) in
              absurd (ground (arith, e, (eq_iff (key x) (key row)).1 same))
        ]
      ]
    ]

    -- A key that is not proposed keeps its row.
    pub lookup-upsert_fresh :
        (k : K) (rows table : List A)
        → IsFresh k rows
        → lookup k (upsert merge rows table) ≡ lookup k table
    unfolding upsert
    lookup-upsert_fresh k [] table fresh = refl
    lookup-upsert_fresh k (row ∷ rows) table fresh =
        lookup-upsert_fresh k rows (upsert_row merge row table) fresh.1
        ∙ (rw (lookup-upsert_row k row table, fresh.0) refl)

    eq-sym : (a b : K) → eq a b ≡ false → eq b a ≡ false
    eq-sym a b h = elim (Bool-cases (eq b a)) [
      | inr e ↦ e
      | inl e ↦ absurd (ground (arith, h, (eq_iff a b).1 (sym ((eq_iff b a).0 e))))
    ]

    -- Every proposed row is stored, with what the table had of its key.
    pub lookup-upsert :
        (rows table : List A)
        → HasDistinctKeys rows
        → All
            (λ row.
              lookup (key row) (upsert merge rows table)
              ≡ some (merged merge row (lookup (key row) table)))
            rows
    unfolding upsert
    lookup-upsert [] table distinct = tt
    lookup-upsert (row ∷ rows) table distinct = (
      lookup-upsert_fresh (key row) rows (upsert_row merge row table) distinct.0
          ∙ rw (lookup-upsert_row (key row) row table, eq_refl (key row)) refl,
      later rows distinct.0 (lookup-upsert rows (upsert_row merge row table) distinct.1),
    )
      where
        later :
            (others : List A)
            → IsFresh (key row) others
            → All
                (λ r.
                  lookup (key r) (upsert merge rows (upsert_row merge row table))
                  ≡ some (merged merge r (lookup (key r) (upsert_row merge row table))))
                others
            → All
                (λ r.
                  lookup (key r) (upsert merge rows (upsert_row merge row table))
                  ≡ some (merged merge r (lookup (key r) table)))
                others
        later [] fresh h = tt
        later (r ∷ others) fresh h = (
          h.0 ∙ rw (lookup-upsert_row (key r) row table, eq-sym (key r) (key row) fresh.0) refl,
          later others fresh.1 h.1,
        )
