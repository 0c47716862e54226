-- ===== src/Table.antt =====
-- A table of the catalog's database: rows with a key that no two rows share. `put`, `change` and
-- `remove` are the statements `INSERT … ON CONFLICT DO UPDATE`, `UPDATE … WHERE` and
-- `DELETE … WHERE` on that key. The database engine is not code of the repository.
pub mod Keys
pub mod Others
use mathlib.Core.Option
use mediamanager.Base.{
  ◌≡◌, refl, ap, inl, inr, false, Option, none, some, List, [], ◌∷◌, map, arith, if◌then◌else◌, All,
  In, All-In, Eq, ◌==◌, ℕ_eq, Text_eq,
}

module _ {A K : Type 0} ⦃e : Eq K⦄ (key : A → K) where
  unfoldable pub find : K → List A → Option A
  find k [] = none
  find k (x ∷ xs) = if key x == k then some x else find k xs

  unfoldable pub put : A → List A → List A
  put x [] = x ∷ []
  put x (y ∷ ys) = if key y == key x then x ∷ ys else y ∷ put x ys

  unfoldable pub change : K → (A → A) → List A → List A
  change k f [] = []
  change k f (x ∷ xs) = if key x == k then f x ∷ change k f xs else x ∷ change k f xs

  unfoldable pub remove : K → List A → List A
  remove k [] = []
  remove k (x ∷ xs) = if key x == k then remove k xs else x ∷ remove k xs

  -- No row has the key.
  abbrev pub Absent : K → List A → Type 0
  Absent k = All (λ x. (key x == k) ≡ false)

  -- The primary key: no two rows share it.
  abbrev pub Distinct : List A → Type 0
  Distinct [] = Unit
  Distinct (x ∷ xs) = Absent (key x) xs × Distinct xs

  pub find-put :
      (k : K) (x : A) (xs : List A) → find k (put x xs) ≡ (if key x == k then some x else find k xs)
  unfolding find put
  find-put k x [] = refl
  find-put k x (y ∷ ys) =
      ground (
        arith,
        e.beq_iff (key y) (key x),
        e.beq_iff (key y) k,
        e.beq_iff (key x) k,
        find-put k x ys,
      )

  pub find-remove :
      (k j : K) (xs : List A) → find j (remove k xs) ≡ (if k == j then none else find j xs)
  unfolding find remove
  find-remove k j [] = ground arith
  find-remove k j (x ∷ xs) =
      ground (arith, e.beq_iff (key x) k, e.beq_iff (key x) j, e.beq_iff k j, find-remove k j xs)

  -- A change that keeps the key is seen at that key only.
  pub find-change :
      (k j : K) (f : A → A) (xs : List A)
      → ((x : A) → key (f x) ≡ key x)
      → find j (change k f xs) ≡ (if k == j then Option.map f (find j xs) else find j xs)
  unfolding find change
  find-change k j f [] keeps = ground arith
  find-change k j f (x ∷ xs) keeps = ground (
    arith,
    keeps x,
    e.beq_iff (key x) k,
    e.beq_iff (key x) j,
    e.beq_iff k j,
    find-change k j f xs keeps,
  )

  pub find-In : (k : K) (x : A) (xs : List A) → find k xs ≡ some x → In x xs × (key x ≡ k)
  unfolding find
  find-In k x [] h = cc
  find-In k x (y ∷ ys) h = ground (arith, e.beq_iff (key y) k, find-In k x ys)

  pub find-Absent : (k : K) (xs : List A) → find k xs ≡ none → Absent k xs
  unfolding find
  find-Absent k [] h = tt
  find-Absent k (x ∷ xs) h = ground (arith, find-Absent k xs)

  -- In a table the rows are found by their keys.
  pub In-find : (x : A) (xs : List A) → Distinct xs → In x xs → find (key x) xs ≡ some x
  unfolding find
  In-find x [] d m = absurd m
  In-find x (y ∷ ys) d (inl q) = ground (arith, e.beq_iff (key y) (key x), ap key q)
  In-find x (y ∷ ys) d (inr m) =
      let other = All-In (λ z. (key z == key y) ≡ false) ys d.0 m in
      ground (arith, e.beq_iff (key y) (key x), e.beq_iff (key x) (key y), In-find x ys d.1 m)
