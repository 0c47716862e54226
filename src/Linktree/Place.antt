-- ===== src/Linktree/Place.antt =====
-- How Set of linktree/linktree.go ends, whichever call fails.
use mediamanager.Base.Exec.{pure, fail, ◌>>=◌}
use mediamanager.Base.Exec.Keeps.{Post, Ensures, Ensures-bind, Ensures-if}
use mediamanager.Base.{
  ◌≡◌, refl, sym, ap, ◌∙◌, ◌≢◌, ◌⊎◌, inl, inr, Bool, true, false, not, Option, none, some, List, [],
  ◌∷◌, arith, Bool-cases, Text, text_eq_iff, ℕ_eq, Text_eq, Pair_eq, ◌==◌, Result, err, ok,
}
use mediamanager.SlashPath.{is_abs}
use mediamanager.Table.{change}
use mediamanager.Linktree.{
  Node, symlink, regular, directory, State, Failure, not_exist, invalid, exists, failed,
  not_absolute, not_symlink, real_files, at, faulted, call, read_node, readlink, tmp_of, swap,
  Change, unchanged, updated, created, place_as, place, set,
}
use mediamanager.Linktree.Swap.{
  node_of, node_at, Kept, Installed, Same, call_ok, SameEntries, swap_ok,
}

module _ (before : Text → Option Node) (rel target : Text) where
  abbrev Old : State → Type 0
  Old s = Same before rel target s

  -- What Readlink tells.
  abbrev Told : Failure → State → Type 0
  Told e s = Old s × (e ≡ not_exist → before rel ≡ none)

  module _ (apart : rel ≢ tmp_of rel) where
    read_node_ok :
        (o : Option (Text × Node)) (s : State)
        → at s rel ≡ o
        → Old s
        → Post
            (λ t s. Old s × (before rel ≡ some (symlink t)))
            Told
            (read_node o s).0
            (read_node o s).1
    read_node_ok none s q h = (h, λ e. sym (h rel apart) ∙ ap node_of q)
    read_node_ok (some (p, symlink t)) s q h = (h, sym (h rel apart) ∙ ap node_of q)
    read_node_ok (some (p, regular)) s q h = (h, λ e. ground arith)
    read_node_ok (some (p, directory)) s q h = (h, λ e. ground arith)

    faulted-Told :
        (fs : List Bool) (es : List (Text × Node))
        → (SameEntries before rel target) es
        → Post (λ u. Old) Told (faulted fs es).0 (faulted fs es).1
    faulted-Told [] es h = h
    faulted-Told (true ∷ fs) es h = (h, λ e. ground arith)
    faulted-Told (false ∷ fs) es h = h

    readlink_ok : Ensures Old (readlink rel) (λ t s. Old s × (before rel ≡ some (symlink t))) Told
    unfolding readlink call
    readlink_ok =
        Ensures-bind call _ (record { at = λ s h. faulted-Told s.faults s.entries h })
          λ u. record { at = λ s h. read_node_ok (at s rel) s refl h }

    -- What is told of a link, by what was done for it.
    abbrev pub Placed : Change → State → Type 0
    Placed change s =
        ((change ≡ unchanged) × Old s × (before rel ≡ some (symlink target)))
        ⊎ ((change ≢ unchanged) × Installed before rel target s)

    swap-Placed :
        (c : Change)
        → c ≢ unchanged
        → (before rel ≡ none) ⊎ ((old : Text) × (before rel ≡ some (symlink old)))
        → Ensures Old (swap rel target >>= λ u. pure c) Placed (λ e. Old)
    swap-Placed c n was =
        Ensures-bind (swap rel target) _ (swap_ok before rel target was apart)
          λ u. record { at = λ s h. inr (n, h) }

    place_as_ok :
        (r : Result Failure Text) (s : State)
        → Post (λ t s. Old s × (before rel ≡ some (symlink t))) Told r s
        → Post Placed (λ e. Old) (place_as rel target r s).0 (place_as rel target r s).1
    place_as_ok (ok have) s h = elim (Bool-cases (have == target)) [
      | inl q ↦ rw q (inl (refl, h.0, h.1 ∙ ground (arith, q, text_eq_iff have target)))
      | inr q ↦ rw q ((swap-Placed updated (λ e. ground arith) (inr (have, h.1))).at s h.0)
    ]
    place_as_ok (err not_exist) s h =
        (Ensures-bind call _ (call_ok before rel target (SameEntries before rel target))
            λ u. swap-Placed created (λ e. ground arith) (inl (h.1 refl))).at
          s h.0
    place_as_ok (err invalid) s h = h.0
    place_as_ok (err exists) s h = h.0
    place_as_ok (err failed) s h = h.0
    place_as_ok (err not_absolute) s h = h.0
    place_as_ok (err not_symlink) s h = h.0
    place_as_ok (err real_files) s h = h.0

    pub place_ok : Ensures Old (place rel target) Placed (λ e. Old)
    unfolding place
    place_ok =
        Ensures-if (not (is_abs target)) (fail not_absolute) _ (λ q. record { at = λ s h. h })
          λ q. record {
            at = λ s h. place_as_ok (readlink rel s).0 (readlink rel s).1 (readlink_ok.at s h);
          }

    answer_ok :
        (c : Change) (s : State)
        → Placed c s
        → (((elim c as (λ x. Bool) [ unchanged ↦ false | other ↦ true ]) ≡ false)
            × Old s
            × (before rel ≡ some (symlink target)))
          ⊎ (((elim c as (λ x. Bool) [ unchanged ↦ false | other ↦ true ]) ≡ true)
              × Installed before rel target s)
    answer_ok unchanged s (inl h) = inl (refl, h.1, h.2)
    answer_ok unchanged s (inr h) = absurd (h.0 refl)
    answer_ok updated s (inl h) = ground (arith, h.0)
    answer_ok updated s (inr h) = inr (refl, h.1)
    answer_ok created s (inl h) = ground (arith, h.0)
    answer_ok created s (inr h) = inr (refl, h.1)

    set_ok :
        Ensures Old
          (set rel target)
          (λ changed s.
            ((changed ≡ false) × Old s × (before rel ≡ some (symlink target)))
            ⊎ ((changed ≡ true) × Installed before rel target s))
          (λ e. Old)
    unfolding set
    set_ok = Ensures-bind (place rel target) _ place_ok λ c. record { at = λ s h. answer_ok c s h }

-- Set that returns has left a link with the target, in place of nothing or of a link, never of a
-- file or directory, and no other entry but the temporary name has changed. A Set that fails, at
-- whichever call, has left the link and every other entry as it was. The path is not its own
-- temporary name.
pub set_outcome :
    (rel target : Text) (s : State)
    → rel ≢ tmp_of rel
    → Post
        (λ changed t.
          ((changed ≡ false)
            × Kept (node_at s) (tmp_of rel) t
            × (node_at s rel ≡ some (symlink target)))
          ⊎ ((changed ≡ true) × Installed (node_at s) rel target t))
        (λ e. Kept (node_at s) (tmp_of rel))
        (set rel target s).0
        (set rel target s).1
set_outcome rel target s apart = (set_ok (node_at s) rel target apart).at s λ p n. refl
