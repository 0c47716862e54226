-- ===== src/Table/Others.antt =====
-- A second key of a table, which a statement on the first key keeps.
use mediamanager.Base.{
  ◌≡◌, refl, inl, inr, true, false, some, List, [], ◌∷◌, arith, Bool-cases, any, All-In, Eq, ◌==◌,
  ℕ_eq, Text_eq, Pair_eq,
}
use mediamanager.Table.{find, put, change, Absent, Distinct, find-In}
use mediamanager.Table.Keys.{All-put}

module _ {A K L : Type 0} ⦃e : Eq K⦄ ⦃d : Eq L⦄ (key : A → K) (other : A → L) where
  flip : (a b : L) → (a == b) ≡ false → (b == a) ≡ false
  flip a b h = ground (arith, d.beq_iff a b, d.beq_iff b a)

  -- Replacing a row by one with the same second key.
  pub replace-Distinct :
      (x old : A) (xs : List A)
      → find key (key x) xs ≡ some old
      → other x ≡ other old
      → Distinct other xs
      → Distinct other (put key x xs)
  unfolding put find
  replace-Distinct x old [] f q h = cc
  replace-Distinct x old (y ∷ ys) f q h = elim (Bool-cases (key y == key x)) [
    | inl t ↦ let same : other x ≡ other y = ground arith in rw t (rw same h.0, h.1)
    | inr t ↦
        let later : find key (key x) ys ≡ some old = ground arith in
        let there = find-In key (key x) old ys later in
        let apart = All-In (λ z. (other z == other y) ≡ false) ys h.0 there.0 in
        rw t (
          All-put key (λ z. (other z == other y) ≡ false) x ys (rw q apart) h.0,
          replace-Distinct x old ys later q h.1,
        )
  ]

  -- Adding a row with new keys.
  pub insert-Distinct :
      (x : A) (xs : List A)
      → Absent other (other x) xs
      → Distinct other xs
      → Absent key (key x) xs
      → Distinct other (put key x xs)
  unfolding put
  insert-Distinct x [] a h b = (tt, tt)
  insert-Distinct x (y ∷ ys) a h b = rw b.0 (
    All-put key (λ z. (other z == other y) ≡ false) x ys (flip _ _ a.0) h.0,
    insert-Distinct x ys a.1 h.1 b.1,
  )

  -- A row that a test finds by its second key is still found after a `put` that keeps that key.
  pub any-replace :
      (l : L) (x old : A) (xs : List A)
      → find key (key x) xs ≡ some old
      → other x ≡ other old
      → any (λ z. other z == l) (put key x xs) ≡ any (λ z. other z == l) xs
  unfolding put find
  any-replace l x old [] f q = cc
  any-replace l x old (y ∷ ys) f q = ground (arith, any-replace l x old ys)

  pub any-insert :
      (l : L) (x : A) (xs : List A)
      → Absent key (key x) xs
      → any (λ z. other z == l) xs ≡ true
      → any (λ z. other z == l) (put key x xs) ≡ true
  unfolding put
  any-insert l x [] b h = cc
  any-insert l x (y ∷ ys) b h = ground (arith, any-insert l x ys b.1)

-- The rows found by their own key.
module _ {A K : Type 0} ⦃e : Eq K⦄ (key : A → K) where
  pub any-find :
      (k : K) (x : A) (xs : List A) → find key k xs ≡ some x → any (λ z. key z == k) xs ≡ true
  unfolding find
  any-find k x [] h = cc
  any-find k x (y ∷ ys) h = ground (arith, any-find k x ys)

  pub any-change :
      (k j : K) (f : A → A) (xs : List A)
      → ((x : A) → key (f x) ≡ key x)
      → any (λ z. key z == k) (change key j f xs) ≡ any (λ z. key z == k) xs
  unfolding change
  any-change k j f [] keeps = refl
  any-change k j f (x ∷ xs) keeps = ground (arith, keeps x, any-change k j f xs keeps)
