-- ===== src/Copyfile/Stream.antt =====
-- The copy loop of copyfile/copyfile.go, when nothing fails.
use mediamanager.Copyfile.Keeps.{update_ne, update_eq}
use mediamanager.Copyfile.{stream}
use mediamanager.Base.{
  ℕ, zero, suc, ◌+◌, ◌-◌, ◌≤◌, ◌<◌, min, ◌≡◌, refl, sym, ap, ◌∙◌, subst, ◌≢◌, inl, inr, true,
  Option, some, List, [], ◌∷◌, ◌++◌, append-nil, append_assoc, arith, ltb, Bool-cases, length, take,
  drop, length-take, take_all, drop_all, Text, ℕ_eq, Text_eq, Pair_eq, Result, ok,
}
use mediamanager.Files.{File, World, Error, update, call, written, write_at, check_context}

-- A world in which no call fails and nobody cancels.
abbrev pub calm : (Text → Option File) → World
calm files = record { files = files; faults = []; cancels = [] }

suc-plus : (m n : ℕ) → suc m + n ≡ suc (m + n)
suc-plus m n = omega arith

take-plus : (m n : ℕ) (xs : List ℕ) → take m xs ++ take n (drop m xs) ≡ take (m + n) xs
take-plus zero n xs = ap (λ k. take k xs) (omega arith)
take-plus (suc m) zero [] = sym (take_all (suc m + 0) [] (omega arith))
take-plus (suc m) (suc n) [] = sym (take_all (suc m + suc n) [] (omega arith))
take-plus (suc m) n (x ∷ xs) =
    ap (◌∷◌ x) (take-plus m n xs) ∙ ap (λ k. take k (x ∷ xs)) (sym (suc-plus m n))

drop-plus : (m n : ℕ) (xs : List ℕ) → drop n (drop m xs) ≡ drop (m + n) xs
drop-plus zero n xs = ap (λ k. drop k xs) (omega arith)
drop-plus (suc m) zero [] = sym (drop_all (suc m + 0) [] (omega arith))
drop-plus (suc m) (suc n) [] = sym (drop_all (suc m + suc n) [] (omega arith))
drop-plus (suc m) n (x ∷ xs) = drop-plus m n xs ∙ ap (λ k. drop k (x ∷ xs)) (sym (suc-plus m n))

take-drop : (n : ℕ) (xs : List ℕ) → take n xs ++ drop n xs ≡ xs
take-drop zero xs = refl
take-drop (suc n) [] = refl
take-drop (suc n) (x ∷ xs) = ap (◌∷◌ x) (take-drop n xs)

-- A round appends to a true prefix.
written-prefix :
    (content : List ℕ) (copied want : ℕ)
    → copied ≤ length content
    → written (take copied content) copied (take want (drop copied content))
      ≡ take (copied + want) content
unfolding written
written-prefix content copied want h =
    let short : length (take copied content) ≤ copied = omega (arith, length-take copied content) in
    rw
      (
        take_all copied (take copied content) short,
        drop_all (copied + length (take want (drop copied content))) (take copied content)
            (omega (arith, short)),
        append-nil (take want (drop copied content)),
      )
      (take-plus copied want content)

module _ (content : List ℕ) (path : Text) (buffer : ℕ) (some_room : 1 ≤ buffer) where
  -- How the loop ends: everything is there, and nothing else has changed.
  pub record Ran (files : Text → Option File) (f : File) (hashed : List ℕ)
      (r : Result Error (List ℕ) × World) : Type 0 where
    pub after : Text → Option File
    pub ends : r ≡ (ok hashed, calm after)
    pub whole : after path ≡ some (record f { content = content })
    pub others : (p : Text) → p ≢ path → after p ≡ files p

  stream-step :
      (files : Text → Option File) (f : File) (fuel copied : ℕ) (hashed : List ℕ)
      → files path ≡ some f
      → copied < length content
      → stream content path buffer (suc fuel) copied hashed (calm files)
        ≡ stream content path buffer fuel
            (copied + min buffer (length content - copied))
            (hashed ++ take (min buffer (length content - copied)) (drop copied content))
            (calm (
              update files path (
                some (record f {
                  content =
                      written f.content copied
                        (take (min buffer (length content - copied)) (drop copied content));
                }))))
  unfolding stream check_context call write_at
  stream-step files f fuel copied hashed q h =
      let b : ltb copied (length content) ≡ true = ground arith in rw (b, q, write_at) refl

  rest_of_hash :
      (copied want : ℕ) (hashed : List ℕ)
      → (hashed ++ take want (drop copied content)) ++ drop (copied + want) content
        ≡ hashed ++ drop copied content
  rest_of_hash copied want hashed =
      append_assoc hashed (take want (drop copied content)) (drop (copied + want) content)
      ∙ ap (λ t. hashed ++ t)
          (ap (λ t. take want (drop copied content) ++ t) (sym (drop-plus copied want content))
            ∙ take-drop want (drop copied content))

  at_end :
      (files : Text → Option File) (f : File) (copied : ℕ) (hashed : List ℕ)
      → files path ≡ some f
      → f.content ≡ take copied content
      → length content ≤ copied
      → Ran files f (hashed ++ drop copied content) (ok hashed, calm files)
  at_end files f copied hashed q c h = record {
    after = files;
    ends =
        ap (λ t. (ok t, calm files))
          (sym (ap (λ t. hashed ++ t) (drop_all copied content h) ∙ append-nil hashed));
    whole = q ∙ ap some (ap (λ t. record f { content = t }) (c ∙ take_all copied content h));
    others = λ p n. refl;
  }

  -- From a true prefix of the source, with as many rounds as bytes are left and a buffer of at
  -- least a byte, the copy loop ends with all of the source in the partial file, having passed
  -- the missing bytes on to the hash, if no call fails and nobody cancels.
  pub stream_full :
      (fuel : ℕ) (files : Text → Option File) (f : File) (copied : ℕ) (hashed : List ℕ)
      → files path ≡ some f
      → f.content ≡ take copied content
      → length content - copied ≤ fuel
      → Ran files f
          (hashed ++ drop copied content)
          (stream content path buffer fuel copied hashed (calm files))
  unfolding stream
  stream_full zero files f copied hashed q c h = at_end files f copied hashed q c (omega arith)
  stream_full (suc fuel) files f copied hashed q c h =
      elim (Bool-cases (ltb copied (length content))) [
        | inr b ↦
            subst (Ran files f (hashed ++ drop copied content)) (rw b refl)
              (at_end files f copied hashed q c (ground (arith, b)))
        | inl b ↦
            let want = min buffer (length content - copied) in
            let bytes = take want (drop copied content) in
            let f' : File = record f { content = written f.content copied bytes } in
            let lt : copied < length content = ground (arith, b) in
            let grown : f'.content ≡ take (copied + want) content =
              ap (λ t. written t copied bytes) c
              ∙ written-prefix content copied want (omega (arith, lt)) in
            let later =
              stream_full fuel (update files path (some f')) f' (copied + want) (hashed ++ bytes)
                (update_eq files path (some f')) grown (omega (arith, lt, h)) in
            record {
              after = later.after;
              ends =
                  stream-step files f fuel copied hashed q lt
                  ∙ later.ends
                  ∙ ap (λ t. (ok t, calm later.after)) (rest_of_hash copied want hashed);
              whole = later.whole;
              others = λ p n. later.others p n ∙ update_ne files path p (some f') n;
            }
      ]
