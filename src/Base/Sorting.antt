-- ===== src/Base/Sorting.antt =====
-- `ORDER BY` and Go's stable sorts, by insertion: the input's elements, in the order of a test.
use Prim.Native.Nat.{ℕ, ◌≤◌}
use mathlib.Core.Path.{◌≡◌}
use mathlib.Core.Logic.{◌⊎◌, inl, inr}
use mathlib.Core.Bool.{Bool, true, false}
use mathlib.Core.List.{List, [], ◌∷◌}
use native.Mathlib.Omega.{arith}
use mediamanager.Base.Tests.{if◌then◌else◌, Bool-cases}
use mediamanager.Base.Lists.{All, In}

module _ {A : Type 0} (less : A → A → Bool) where
  unfoldable pub insert : A → List A → List A
  insert x [] = x ∷ []
  insert x (y ∷ ys) = if less y x then y ∷ insert x ys else x ∷ y ∷ ys

  -- Equal elements keep their order: each is inserted before those that follow it.
  unfoldable pub sort : List A → List A
  unfolding insert
  sort [] = []
  sort (x ∷ xs) = insert x (sort xs)

  In-insert : (a x : A) (ys : List A) → In a (insert x ys) → (x ≡ a) ⊎ In a ys
  unfolding insert
  In-insert a x [] m = m
  In-insert a x (y ∷ ys) m = ground (arith, In-insert a x ys)

  insert-In : (a x : A) (ys : List A) → (x ≡ a) ⊎ In a ys → In a (insert x ys)
  unfolding insert
  insert-In a x [] m = m
  insert-In a x (y ∷ ys) m = ground (arith, insert-In a x ys)

  -- Sorting neither loses an element nor makes one up.
  pub In-sort : (a : A) (xs : List A) → In a (sort xs) → In a xs
  unfolding sort
  In-sort a [] m = m
  In-sort a (x ∷ xs) m = ground (arith, In-insert a x (sort xs), In-sort a xs)

  pub sort-In : (a : A) (xs : List A) → In a xs → In a (sort xs)
  unfolding sort
  sort-In a [] m = m
  sort-In a (x ∷ xs) m = ground (arith, insert-In a x (sort xs), sort-In a xs)

-- A number that the test respects rises along the sorted list.
module _ {A : Type 0} (less : A → A → Bool) (rank : A → ℕ) where
  abbrev pub Ascends : List A → Type 0
  Ascends [] = Unit
  Ascends (x ∷ xs) = All (λ y. rank x ≤ rank y) xs × Ascends xs

  module _ (down : (x y : A) → less y x ≡ true → rank y ≤ rank x)
      (up : (x y : A) → less y x ≡ false → rank x ≤ rank y) where
    All-insert :
        (n : ℕ) (x : A) (ys : List A)
        → n ≤ rank x
        → All (λ y. n ≤ rank y) ys
        → All (λ y. n ≤ rank y) (insert less x ys)
    unfolding insert
    All-insert n x [] h a = (h, tt)
    All-insert n x (y ∷ ys) h a = elim (Bool-cases (less y x)) [
      | inl q ↦ rw q (a.0, All-insert n x ys h a.1)
      | inr q ↦ rw q (h, a)
    ]

    All-le : (m n : ℕ) (ys : List A) → m ≤ n → All (λ y. n ≤ rank y) ys → All (λ y. m ≤ rank y) ys
    All-le m n [] h a = tt
    All-le m n (y ∷ ys) h a = (omega (arith, a.0), All-le m n ys h a.1)

    insert-Ascends : (x : A) (ys : List A) → Ascends ys → Ascends (insert less x ys)
    unfolding insert
    insert-Ascends x [] s = (tt, tt)
    insert-Ascends x (y ∷ ys) s = elim (Bool-cases (less y x)) [
      | inl q ↦ rw q (All-insert (rank y) x ys (down x y q) s.0, insert-Ascends x ys s.1)
      | inr q ↦ let le = up x y q in rw q ((le, All-le (rank x) (rank y) ys le s.0), s)
    ]

    pub sort-Ascends : (xs : List A) → Ascends (sort less xs)
    unfolding sort
    sort-Ascends [] = tt
    sort-Ascends (x ∷ xs) = insert-Ascends x (sort less xs) (sort-Ascends xs)
