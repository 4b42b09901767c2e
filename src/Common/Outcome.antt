-- ===== src/Common/Outcome.antt =====
-- Python calls that return or raise. `Result` is a call that changes nothing; a session whose body
-- raises is rolled back, so a transaction is a `Result` too, of its value and the committed rows.
use mathlib.Core.Path.{◌≡◌, refl, ap, ◌∙◌, subst}
use mathlib.Core.Logic.{◌⊎◌, inl, inr}

pub data Result {ℓ} (E A : Type ℓ) : Type ℓ where
  ok : A → Result E A
  err : E → Result E A

infixl 5 ◌>>=◌ ◌>>◌
abbrev pub ◌>>=◌ {ℓ} : {E A B : Type ℓ} → Result E A → (A → Result E B) → Result E B
ok a >>= f = f a
err e >>= f = err e

abbrev pub ◌>>◌ : {E B : Type 0} → Result E (Unit {0}) → Result E B → Result E B
m >> k = m >>= λ _. k

pub Result-cases {ℓ} :
    {E A : Type ℓ} (r : Result E A) → ((a : A) × (r ≡ ok a)) ⊎ ((e : E) × (r ≡ err e))
Result-cases (ok a) = inl (a, refl)
Result-cases (err e) = inr (e, refl)

-- A successful bind has a first result, which the rest turned into the last.
pub >>=-eq-ok :
    {E A B : Type 0} {last : B} (call : Result E A) (rest : A → Result E B)
    → (call >>= rest) ≡ ok last
    → (x : A) × (call ≡ ok x) × (rest x ≡ ok last)
>>=-eq-ok (err raised) rest returned = absurd cc
>>=-eq-ok (ok x) rest returned = (x, refl, returned)

pub ok-injective : {E A : Type 0} {a b : A} → ◌≡◌ {A = Result E A} (ok a) (ok b) → a ≡ b
ok-injective h = cc

-- What holds of a result holds of any value that it equals.
pub ok-subst :
    {E A : Type 0} (P : A → Type 0) {a b : A} → ◌≡◌ {A = Result E A} (ok a) (ok b) → P a → P b
ok-subst P h p = subst P (ok-injective h) p

-- The call returns.
abbrev pub Succeeds : {E A : Type 0} → Result E A → Type 0
Succeeds {A = A} r = (a : A) × (r ≡ ok a)

pub >>=-Succeeds :
    {E A B : Type 0} (m : Result E A) (f : A → Result E B)
    → Succeeds m
    → ((a : A) → m ≡ ok a → Succeeds (f a))
    → Succeeds (m >>= f)
>>=-Succeeds (ok a) f s next = next a refl
>>=-Succeeds (err e) f s next = absurd cc

pub >>=-ok :
    {E A B : Type 0} (m : Result E A) (f : A → Result E B) {a : A} {b : B}
    → m ≡ ok a
    → f a ≡ ok b
    → (m >>= f) ≡ ok b
>>=-ok (ok x) f h k = ap f (ok-injective h) ∙ k
>>=-ok (err e) f h k = absurd cc
