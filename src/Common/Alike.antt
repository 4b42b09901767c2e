-- ===== src/Common/Alike.antt =====
-- Calls that return alike: the same error, or values that a function does not tell apart.
use mathlib.Core.Path.{◌≡◌, refl, ap}
use mathlib.Core.Bool.{Bool, true, false}
use talap_ml.Common.Tests.{if◌then◌else◌}
use talap_ml.Common.Outcome.{Result, ok, err, ◌>>=◌, ok-injective}

abbrev pub map_ok : {E A B : Type 0} → (A → B) → Result E A → Result E B
map_ok f (ok a) = ok (f a)
map_ok f (err e) = err e

abbrev pub Alike : {E A B : Type 0} → (A → B) → Result E A → Result E A → Type 0
Alike f x y = map_ok f x ≡ map_ok f y

err-injective : {E A : Type 0} {a b : E} → ◌≡◌ {A = Result E A} (err a) (err b) → a ≡ b
err-injective h = cc

module _ {E A B C D : Type 0} (h : A → B) (k : C → D) where
  pub >>=-Alike :
      (x y : Result E A) (f g : A → Result E C)
      → Alike h x y
      → ((a b : A) → h a ≡ h b → Alike k (f a) (g b))
      → Alike k (x >>= f) (y >>= g)
  >>=-Alike (ok a) (ok b) f g e next = next a b (ok-injective e)
  >>=-Alike (ok a) (err b) f g e next = absurd cc
  >>=-Alike (err a) (ok b) f g e next = absurd cc
  >>=-Alike (err a) (err b) f g e next = ap err (err-injective e)

module _ {E C D : Type 0} (k : C → D) where
  -- The first call is the same.
  pub >>=-Alike_rest :
      {A : Type 0} (x : Result E A) (f g : A → Result E C)
      → ((a : A) → Alike k (f a) (g a))
      → Alike k (x >>= f) (x >>= g)
  >>=-Alike_rest (ok a) f g next = next a
  >>=-Alike_rest (err a) f g next = refl

  pub if-Alike :
      (b : Bool) (x y v w : Result E C)
      → Alike k x v
      → Alike k y w
      → Alike k (if b then x else y) (if b then v else w)
  if-Alike true x y v w h i = h
  if-Alike false x y v w h i = i

  -- A call that is like one that returns, returns.
  pub Alike-ok :
      (x y : Result E C) (c : C) → Alike k x y → x ≡ ok c → (d : C) × (y ≡ ok d) × (k d ≡ k c)
  Alike-ok (ok a) (ok b) c h e = (b, refl, cc)
  Alike-ok (ok a) (err b) c h e = absurd cc
  Alike-ok (err a) y c h e = absurd cc
