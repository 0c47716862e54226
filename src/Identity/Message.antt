-- ===== src/Identity/Message.antt =====
-- What the sparse identity hashes determines: the size, and the first and last chunk.
use mediamanager.Base.{
  ℕ, zero, suc, ◌+◌, ◌-◌, ◌*◌, ◌^◌, ◌≤◌, ◌<◌, ◌≡◌, refl, sym, ap, ◌∙◌, subst, ◌↔◌, ◌⊎◌, inl, inr,
  false, [], ◌∷◌, ◌++◌, arith, leb, leb→le, le→leb, Bool-cases, length, take, drop,
  take-append-drop, length-take, length-drop, take_all, Text, ok,
}
use mathlib.Core.Path.{◌≡⟨◌⟩◌, ◌∎}
use mediamanager.Identity.{
  Bytes, chunk, id_len, hex, be64, hash_range, message, sparse, sparse_file,
}

be64_injective : (n m : ℕ) → n < 2 ^ 64 → m < 2 ^ 64 → be64 n ≡ be64 m → n ≡ m
unfolding be64
be64_injective n m h k e = ground arith

-- A hash range inside the file is read in full.
hash_range-ok :
    (r : Bytes) (off n : ℕ) → off + n ≤ length r → hash_range r off n ≡ ok (take n (drop off r))
unfolding hash_range
hash_range-ok r off zero h = refl
hash_range-ok r off (suc n) h = ground (arith, length-take (suc n) (drop off r), length-drop off r)

large : (n c : ℕ) → 2 * c < n → leb n (2 * c) ≡ false
large n c h = ground arith

-- The message of a whole file: always made, by one clause for each size.
message-small :
    (r : Bytes) → length r ≤ 2 * chunk → message r (length r) ≡ ok (be64 (length r) ++ r)
unfolding message
message-small r h =
    rw (le→leb _ _ h)
      (rw (hash_range-ok r 0 (length r) (omega arith), take_all (length r) r (omega arith)))

message-large :
    (r : Bytes)
    → 2 * chunk < length r
    → message r (length r) ≡ ok (be64 (length r) ++ (take chunk r ++ drop (length r - chunk) r))
unfolding message
message-large r h =
    let tail : take chunk (drop (length r - chunk) r) ≡ drop (length r - chunk) r =
      take_all chunk _ (omega (arith, length-drop (length r - chunk) r)) in
    rw (large (length r) chunk h) (
      rw (
        hash_range-ok r 0 chunk (omega arith),
        hash_range-ok r (length r - chunk) chunk (omega arith),
        tail,
      ))

drop_nil : (k : ℕ) → drop {A = ℕ} k [] ≡ []
drop_nil zero = refl
drop_nil (suc k) = refl

drop-drop : (m n : ℕ) (xs : Bytes) → drop m (drop n xs) ≡ drop (n + m) xs
drop-drop m zero xs = let e : 0 + m ≡ m = omega arith in rw e
drop-drop m (suc n) [] = rw (drop_nil m, drop_nil (suc n + m))
drop-drop m (suc n) (x ∷ xs) =
    let e : suc n + m ≡ suc (n + m) = omega arith in rw e (drop-drop m n xs)

append_injective :
    (xs ys us vs : Bytes) → length xs ≡ length ys → xs ++ us ≡ ys ++ vs → (xs ≡ ys) × (us ≡ vs)
append_injective [] [] us vs h e = (refl, e)
append_injective [] (y ∷ ys) us vs h e = absurd (omega arith)
append_injective (x ∷ xs) [] us vs h e = absurd (omega arith)
append_injective (x ∷ xs) (y ∷ ys) us vs h e =
    let rest = append_injective xs ys us vs (omega arith) (cc) in (cc (rest.0), rest.1)

-- Two files of the same size agree on the first and the last chunk.
pub record SameExtents (r s : Bytes) : Type 0 where
  pub size : length r ≡ length s
  pub head : take chunk r ≡ take chunk s
  pub tail : drop (length r - chunk) r ≡ drop (length s - chunk) s

-- In a small file the second chunk lies within the tail.
drop-chunk :
    (c : ℕ) (r : Bytes)
    → length r ≤ 2 * c
    → drop c r ≡ drop (c - (length r - c)) (drop (length r - c) r)
drop-chunk c r h =
    let e : (length r - c) + (c - (length r - c)) ≡ c = omega arith in
    sym (drop-drop (c - (length r - c)) (length r - c) r ∙ ap (λ k. drop k r) e)

-- So the two extents are the whole of it.
pub SameExtents-small : (r s : Bytes) → length r ≤ 2 * chunk → SameExtents r s → r ≡ s
SameExtents-small r s h e =
    r
    ≡⟨ sym (take-append-drop chunk r) ⟩ take chunk r ++ drop chunk r
    ≡⟨ cc (e.head, e.tail, e.size, drop-chunk chunk r h, drop-chunk chunk s (omega arith)) ⟩
      take chunk s ++ drop chunk s
    ≡⟨ take-append-drop chunk s ⟩ s ∎

length-be64 : (n : ℕ) → length (be64 n) ≡ 8
unfolding be64
length-be64 n = refl

not_leb→lt : (a b : ℕ) → leb a b ≡ false → b < a
not_leb→lt a b h = ground arith

-- What follows the size in the message of a file.
abbrev Body : Bytes → Bytes → Type 0
Body r b =
    ((length r ≤ 2 * chunk) × (b ≡ r))
    ⊎ ((2 * chunk < length r) × (b ≡ take chunk r ++ drop (length r - chunk) r))

message-Body :
    (r : Bytes) → (b : Bytes) × (message r (length r) ≡ ok (be64 (length r) ++ b)) × Body r b
message-Body r = elim (Bool-cases (leb (length r) (2 * chunk))) [
  | inl small ↦ let le = leb→le _ _ small in (r, message-small r le, inl (le, refl))
  | inr big ↦
      let lt = not_leb→lt _ _ big in
      (take chunk r ++ drop (length r - chunk) r, message-large r lt, inr (lt, refl))
]

Body-SameExtents : (r s b : Bytes) → length r ≡ length s → Body r b → Body s b → SameExtents r s
Body-SameExtents r s b z (inl (h, e)) (inl (k, f)) =
    rw (sym e ∙ f) (record { size = refl; head = refl; tail = refl })
Body-SameExtents r s b z (inl (h, e)) (inr (k, f)) = absurd (omega arith)
Body-SameExtents r s b z (inr (h, e)) (inl (k, f)) = absurd (omega arith)
Body-SameExtents r s b z (inr (h, e)) (inr (k, f)) =
    let same_length : length (take chunk r) ≡ length (take chunk s) =
      omega (arith, length-take chunk r, length-take chunk s) in
    let parts = append_injective _ _ _ _ same_length (sym e ∙ f) in
    record { size = z; head = parts.0; tail = parts.1 }

Body-eq : (r s a b : Bytes) → SameExtents r s → Body r a → Body s b → a ≡ b
Body-eq r s a b x (inl (h, e)) (inl (k, f)) = e ∙ SameExtents-small r s h x ∙ sym f
Body-eq r s a b x (inl (h, e)) (inr (k, f)) = absurd (omega (arith, x.size))
Body-eq r s a b x (inr (h, e)) (inl (k, f)) = absurd (omega (arith, x.size))
Body-eq r s a b x (inr (h, e)) (inr (k, f)) = cc (x.head, x.tail)

-- The hashed messages of two files below 2^64 bytes are the same exactly when the files have the
-- same size and the same first and last chunk: a truncated copy always hashes something else,
-- and a change between the chunks is not seen.
pub message_iff :
    (r s : Bytes)
    → length r < 2 ^ 64
    → length s < 2 ^ 64
    → (message r (length r) ≡ message s (length s)) ↔ SameExtents r s
message_iff r s h k =
    let (a, made_r, body_r) = message-Body r in
    let (b, made_s, body_s) = message-Body s in
    (
      λ e.
          let both =
            append_injective (be64 (length r)) (be64 (length s)) a b
              (length-be64 _ ∙ sym (length-be64 _)) (cc) in
          Body-SameExtents r s a (be64_injective _ _ h k both.0) body_r
            (subst (Body s) (sym both.1) body_s),
      λ x. made_r ∙ ap ok (cc (Body-eq r s a b x body_r body_s, x.size)) ∙ sym made_s,
    )

module _ (sha256 : Bytes → Bytes) where
  -- SparseFile never fails on a file that it can read, and returns its size.
  pub sparse_file-total : (r : Bytes) → (id : Text) × (sparse_file sha256 r ≡ ok (id, length r))
  unfolding sparse_file sparse
  sparse_file-total r =
      let (b, made, _) = message-Body r in
      (take id_len (hex (sha256 (be64 (length r) ++ b))), rw made)

  -- So every true copy has the identity of its original.
  pub sparse_file-SameExtents :
      (r s : Bytes)
      → length r < 2 ^ 64
      → length s < 2 ^ 64
      → SameExtents r s
      → sparse_file sha256 r ≡ sparse_file sha256 s
  unfolding sparse_file sparse
  sparse_file-SameExtents r s h k e = rw ((message_iff r s h k).1 e) (rw e.size)
