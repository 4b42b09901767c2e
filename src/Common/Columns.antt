-- ===== src/Common/Columns.antt =====
-- `ORDER BY` two times and a UUID, as both job queues are ordered: the lexicographic order is total
-- and transitive.
use Prim.Native.Nat.{ℕ, ◌≤◌}
use mathlib.Core.Path.{◌≡◌}
use mathlib.Core.Logic.{◌⊎◌}
use mathlib.Core.Bool.{Bool, true, false}
use native.Mathlib.Omega.{arith}
use talap_ml.Common.Tests.{leb, if◌then◌else◌}
use talap_ml.Common.Int.{ℤ, ◌≤ℤ◌, ltb_ℤ}
use talap_ml.Common.Sorting.{IsTotalOrder}

-- the columns of one row
pub record Columns : Type 0 where
  pub available_at : ℤ
  pub created_at : ℤ
  pub id : ℕ

unfoldable pub precedes : Columns → Columns → Bool
precedes a b =
    if ltb_ℤ a.available_at b.available_at
    then true
    else if ltb_ℤ b.available_at a.available_at
    then false
    else if ltb_ℤ a.created_at b.created_at
    then true
    else if ltb_ℤ b.created_at a.created_at
    then false
    else leb a.id b.id

abbrev IsBelow : ℤ → ℤ → Type 0
IsBelow a b = ¬ (b ≤ℤ a)

-- The order as a proposition.
abbrev Precedes : Columns → Columns → Type 0
Precedes a b =
    IsBelow a.available_at b.available_at
    ⊎ ((a.available_at ≤ℤ b.available_at)
        × (IsBelow a.created_at b.created_at ⊎ ((a.created_at ≤ℤ b.created_at) × (a.id ≤ b.id))))

precedes→Precedes : (a b : Columns) → precedes a b ≡ true → Precedes a b
unfolding precedes
precedes→Precedes a b h = ground arith

Precedes→precedes : (a b : Columns) → Precedes a b → precedes a b ≡ true
unfolding precedes
Precedes→precedes a b h = ground arith

Precedes-trans : (a b c : Columns) → Precedes a b → Precedes b c → Precedes a c
Precedes-trans a b c h k = grind arith

pub precedes-flip : (a b : Columns) → precedes a b ≡ false → precedes b a ≡ true
unfolding precedes
precedes-flip a b h = ground arith

pub precedes_trans :
    (a b c : Columns) → precedes a b ≡ true → precedes b c ≡ true → precedes a c ≡ true
precedes_trans a b c h k =
    Precedes→precedes a c (Precedes-trans a b c (precedes→Precedes a b h) (precedes→Precedes b c k))

-- Rows that are ordered by such columns.
pub precedes-IsTotalOrder :
    {A : Type 0} (columns : A → Columns) → IsTotalOrder (λ a b. precedes (columns a) (columns b))
precedes-IsTotalOrder columns = record {
  flip = λ a b. precedes-flip (columns a) (columns b);
  trans = λ a b c. precedes_trans (columns a) (columns b) (columns c);
}
