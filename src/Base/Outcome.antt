-- ===== src/Base/Outcome.antt =====
-- Go's `(value, error)` as a sum.
use mathlib.Core.Path.{◌≡◌, refl}
use mathlib.Core.Bool.{Bool, true, false}
use mediamanager.Base.Tests.{if◌then◌else◌}
use mathlib.Core.Logic.{◌⊎◌, inl, inr}

pub data Result {ℓ} (E A : Type ℓ) : Type ℓ where
  err : E → Result E A
  ok : A → Result E A

module _ {ℓ} {E A B : Type ℓ} where
  infixl 5 ◌>>=◌
  abbrev pub ◌>>=◌ : Result E A → (A → Result E B) → Result E B
  err e >>= rest = err e
  ok a >>= rest = rest a

  -- What succeeded first, and what it was given to.
  pub >>=-eq-ok :
      (r : Result E A) (k : A → Result E B) {c : B}
      → (r >>= k) ≡ ok c
      → (x : A) × (r ≡ ok x) × (k x ≡ ok c)
  >>=-eq-ok (err e) k h = cc
  >>=-eq-ok (ok x) k h = (x, refl, h)

pub Result-cases {ℓ} :
    {E A : Type ℓ} (m : Result E A) → ((a : A) × (m ≡ ok a)) ⊎ ((e : E) × (m ≡ err e))
Result-cases (ok a) = inl (a, refl)
Result-cases (err e) = inr (e, refl)

-- A test that did not fail was passed.
pub if-err {ℓ} :
    {E A : Type ℓ} (b : Bool) (e : E) (m : Result E A) {a : A}
    → (if b then err e else m) ≡ ok a
    → m ≡ ok a
if-err true e m q = cc
if-err false e m q = q
