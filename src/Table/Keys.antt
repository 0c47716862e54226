-- ===== src/Table/Keys.antt =====
-- The statements on a table keep its key, and keep what holds of every row.
use mediamanager.Base.{
  ◌≡◌, subst, inl, inr, false, List, [], ◌∷◌, arith, Bool-cases, All, Eq, ◌==◌, ℕ_eq, Text_eq,
}
use mediamanager.Table.{put, change, remove, Absent, Distinct}

module _ {A K : Type 0} ⦃e : Eq K⦄ (key : A → K) where
  Absent-put :
      (k : K) (x : A) (xs : List A)
      → (key x == k) ≡ false
      → Absent key k xs
      → Absent key k (put key x xs)
  unfolding put
  Absent-put k x [] h a = (h, tt)
  Absent-put k x (y ∷ ys) h a = elim (Bool-cases (key y == key x)) [
    | inl q ↦ rw q (h, a.1)
    | inr q ↦ rw q (a.0, Absent-put k x ys h a.1)
  ]

  pub put-Distinct : (x : A) (xs : List A) → Distinct key xs → Distinct key (put key x xs)
  unfolding put
  put-Distinct x [] d = (tt, tt)
  put-Distinct x (y ∷ ys) d = elim (Bool-cases (key y == key x)) [
    | inl q ↦ rw q (subst (λ k. Absent key k ys) ((e.beq_iff _ _).0 q) d.0, d.1)
    | inr q ↦ rw q (Absent-put (key y) x ys (flip q) d.0, put-Distinct x ys d.1)
  ]
    where
      flip : (key y == key x) ≡ false → (key x == key y) ≡ false
      flip q = ground (arith, e.beq_iff (key x) (key y), e.beq_iff (key y) (key x))

  Absent-remove : (k j : K) (xs : List A) → Absent key k xs → Absent key k (remove key j xs)
  unfolding remove
  Absent-remove k j [] a = tt
  Absent-remove k j (x ∷ xs) a = elim (Bool-cases (key x == j)) [
    | inl q ↦ rw q (Absent-remove k j xs a.1)
    | inr q ↦ rw q (a.0, Absent-remove k j xs a.1)
  ]

  pub remove-Distinct : (k : K) (xs : List A) → Distinct key xs → Distinct key (remove key k xs)
  unfolding remove
  remove-Distinct k [] d = tt
  remove-Distinct k (x ∷ xs) d = elim (Bool-cases (key x == k)) [
    | inl q ↦ rw q (remove-Distinct k xs d.1)
    | inr q ↦ rw q (Absent-remove (key x) k xs d.0, remove-Distinct k xs d.1)
  ]

  module _ (f : A → A) (keeps : (x : A) → key (f x) ≡ key x) where
    Absent-change : (k j : K) (xs : List A) → Absent key k xs → Absent key k (change key j f xs)
    unfolding change
    Absent-change k j [] a = tt
    Absent-change k j (x ∷ xs) a = elim (Bool-cases (key x == j)) [
      | inl q ↦ rw (q, keeps x) (a.0, Absent-change k j xs a.1)
      | inr q ↦ rw q (a.0, Absent-change k j xs a.1)
    ]

    pub change-Distinct : (k : K) (xs : List A) → Distinct key xs → Distinct key (change key k f xs)
    unfolding change
    change-Distinct k [] d = tt
    change-Distinct k (x ∷ xs) d = elim (Bool-cases (key x == k)) [
      | inl q ↦ rw (q, keeps x) (Absent-change (key x) k xs d.0, change-Distinct k xs d.1)
      | inr q ↦ rw q (Absent-change (key x) k xs d.0, change-Distinct k xs d.1)
    ]

  -- A predicate on rows survives a `put` of a row that has it.
  pub All-put : (P : A → Type 0) (x : A) (xs : List A) → P x → All P xs → All P (put key x xs)
  unfolding put
  All-put P x [] h a = (h, tt)
  All-put P x (y ∷ ys) h a = elim (Bool-cases (key y == key x)) [
    | inl q ↦ rw q (h, a.1)
    | inr q ↦ rw q (a.0, All-put P x ys h a.1)
  ]

  pub All-remove : (P : A → Type 0) (k : K) (xs : List A) → All P xs → All P (remove key k xs)
  unfolding remove
  All-remove P k [] a = tt
  All-remove P k (x ∷ xs) a = elim (Bool-cases (key x == k)) [
    | inl q ↦ rw q (All-remove P k xs a.1)
    | inr q ↦ rw q (a.0, All-remove P k xs a.1)
  ]

  pub All-change :
      (P : A → Type 0) (k : K) (f : A → A) (xs : List A)
      → ((x : A) → P x → P (f x))
      → All P xs
      → All P (change key k f xs)
  unfolding change
  All-change P k f [] h a = tt
  All-change P k f (x ∷ xs) h a = elim (Bool-cases (key x == k)) [
    | inl q ↦ rw q (h x a.0, All-change P k f xs h a.1)
    | inr q ↦ rw q (a.0, All-change P k f xs h a.1)
  ]
