-- ===== src/Base/Equality.antt =====
-- Boolean equality as an interface, so that one operator serves numbers, texts and enumerations.
use Prim.Native.Nat.{ℕ}
use mathlib.Core.Path.{◌≡◌}
use mathlib.Core.Logic.{◌↔◌}
use mathlib.Core.Bool.{Bool, true, ◌&&◌}
use native.Mathlib.Omega.{arith}
use mediamanager.Base.Tests.{nat_eq, nat_eq_iff}
use mediamanager.Base.Chars.{Text, text_eq, text_eq_iff}

pub record Eq {ℓ} (A : Type ℓ) : Type ℓ where
  pub beq : A → A → Bool
  pub beq_iff : (a b : A) → (beq a b ≡ true) ↔ (a ≡ b)

instance abbrev pub ℕ_eq : Eq ℕ
ℕ_eq = record { beq = nat_eq; beq_iff = nat_eq_iff }

instance abbrev pub Text_eq : Eq Text
Text_eq = record { beq = text_eq; beq_iff = text_eq_iff }

module _ {ℓ} {A B : Type ℓ} ⦃a : Eq A⦄ ⦃b : Eq B⦄ where
  abbrev pub pair_eq : A × B → A × B → Bool
  pair_eq p q = a.beq p.0 q.0 && b.beq p.1 q.1

  pub pair_eq_iff : (p q : A × B) → (pair_eq p q ≡ true) ↔ (p ≡ q)
  pair_eq_iff p q = (
    λ e. ground (arith, a.beq_iff p.0 q.0, b.beq_iff p.1 q.1),
    λ e. ground (arith, a.beq_iff p.0 q.0, b.beq_iff p.1 q.1),
  )

  -- The key of two columns.
  instance abbrev pub Pair_eq : Eq (A × B)
  Pair_eq = record { beq = pair_eq; beq_iff = pair_eq_iff }

module _ {ℓ} {A : Type ℓ} ⦃e : Eq A⦄ where
  infix 50 ◌==◌
  abbrev pub ◌==◌ : A → A → Bool
  x == y = e.beq x y
