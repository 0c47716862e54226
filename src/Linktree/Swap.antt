-- ===== src/Linktree/Swap.antt =====
-- How a swap of linktree/linktree.go end, whichever call fails.

use mediamanager.Base.Exec.Keeps.{
  Keeps, Post, Ensures, Keeps-bind, Ensures-bind, Ensures-Keeps, Ensures-weaken,
}
use mediamanager.Base.{
  ◌≡◌, refl, ◌∙◌, ◌≢◌, ◌⊎◌, inl, inr, Bool, true, false, Option, none, some, List, [], ◌∷◌, arith,
  if◌then◌else◌, Bool-cases, any, Text, text_eq_iff, ℕ_eq, Text_eq, Pair_eq, ◌==◌, Result, err, ok,
}
use mediamanager.Table.{find, put, remove, find-put, find-remove}
use mediamanager.Linktree.{
  Node, symlink, regular, directory, State, Failure, path_of, at, faulted, call, make_node,
  make_symlink, below, remove_node, remove_entry, move_node, rename, attempt, or_else, tmp_of, swap,
}

abbrev pub node_of : Option (Text × Node) → Option Node
node_of none = none
node_of (some e) = some e.1

-- What a path stands for.
abbrev pub node_at : State → Text → Option Node
node_at s p = node_of (at s p)

node-put :
    (q : Text) (n : Node) (es : List (Text × Node)) (p : Text)
    → node_of (find path_of p (put path_of (q, n) es))
      ≡ (if q == p then some n else node_of (find path_of p es))
node-put q n es p = ground (arith, find-put path_of p (q, n) es)

pub node-remove :
    (q : Text) (es : List (Text × Node)) (p : Text)
    → node_of (find path_of p (remove path_of q es))
      ≡ (if q == p then none else node_of (find path_of p es))
node-remove q es p = ground (arith, find-remove path_of q p es)

-- Every path but the temporary one stands for what it did.
abbrev pub Kept : (Text → Option Node) → Text → State → Type 0
Kept before tmp s = (p : Text) → p ≢ tmp → node_at s p ≡ before p

-- The link points at the target. What it replaced, if anything, was a link.
pub record Installed (before : Text → Option Node) (rel target : Text) (s : State) : Type 0 where
  pub here : node_at s rel ≡ some (symlink target)
  pub replaced : (before rel ≡ none) ⊎ ((old : Text) × (before rel ≡ some (symlink old)))
  pub others : (p : Text) → p ≢ tmp_of rel → p ≢ rel → node_at s p ≡ before p

module _ (before : Text → Option Node) (rel target : Text) where
  abbrev pub Same : State → Type 0
  Same s = Kept before (tmp_of rel) s

  faulted_ok :
      (Q : List (Text × Node) → Type 0) (fs : List Bool) (es : List (Text × Node))
      → Q es
      → Post (λ u s. Q s.entries) (λ e s. Q s.entries) (faulted fs es).0 (faulted fs es).1
  faulted_ok Q [] es h = h
  faulted_ok Q (true ∷ fs) es h = h
  faulted_ok Q (false ∷ fs) es h = h

  -- A call leaves what is known of the entries.
  pub call_ok :
      (Q : List (Text × Node) → Type 0)
      → Ensures (λ s. Q s.entries) call (λ u s. Q s.entries) (λ e s. Q s.entries)
  unfolding call
  call_ok Q = record { at = λ s h. faulted_ok Q s.faults s.entries h }

  abbrev pub SameEntries : List (Text × Node) → Type 0
  SameEntries es = (p : Text) → p ≢ tmp_of rel → node_of (find path_of p es) ≡ before p

  remove_node_ok :
      (o : Option (Text × Node)) (s : State) → Same s → Same (remove_node (tmp_of rel) o s).1
  remove_node_ok none s h = h
  remove_node_ok (some e) s h = elim (Bool-cases (any (below (tmp_of rel)) s.entries)) [
    | inl q ↦ rw q h
    | inr q ↦ rw q λ p n.
        node-remove (tmp_of rel) s.entries p ∙ ground (arith, h p n, text_eq_iff (tmp_of rel) p)
  ]

  remove_entry-Keeps : Keeps Same (remove_entry (tmp_of rel))
  unfolding remove_entry
  remove_entry-Keeps =
      Keeps-bind call _ (Ensures-Keeps Same call (call_ok SameEntries))
        λ u. record { at = λ s h. remove_node_ok (at s (tmp_of rel)) s h }

  attempt-Ensures : Ensures Same (attempt (remove_entry (tmp_of rel))) (λ u. Same) (λ e. Same)
  attempt-Ensures = record { at = λ s h. remove_entry-Keeps.at s h }

  abbrev Linked : List (Text × Node) → Type 0
  Linked es = SameEntries es × (node_of (find path_of (tmp_of rel) es) ≡ some (symlink target))

  make_node_ok :
      (o : Option (Text × Node)) (s : State)
      → Same s
      → Post
          (λ u s. Linked s.entries)
          (λ e. Same)
          (make_node target (tmp_of rel) o s).0
          (make_node target (tmp_of rel) o s).1
  make_node_ok (some e) s h = h
  make_node_ok none s h = (
    (λ p n.
        node-put (tmp_of rel) (symlink target) s.entries p
        ∙ ground (arith, h p n, text_eq_iff (tmp_of rel) p)),
    node-put (tmp_of rel) (symlink target) s.entries (tmp_of rel)
        ∙ ground (arith, text_eq_iff (tmp_of rel) (tmp_of rel)),
  )

  make_symlink_ok :
      (u : Unit {0})
      → Ensures Same (make_symlink target (tmp_of rel)) (λ u s. Linked s.entries) (λ e. Same)
  unfolding make_symlink
  make_symlink_ok u =
      Ensures-bind call _ (call_ok SameEntries)
        λ v. record { at = λ s h. make_node_ok (at s (tmp_of rel)) s h }

  module _ (was : (before rel ≡ none) ⊎ ((old : Text) × (before rel ≡ some (symlink old))))
      (apart : rel ≢ tmp_of rel) where
    moved_ok :
        (e : Text × Node) (s : State)
        → at s (tmp_of rel) ≡ some e
        → Linked s.entries
        → Installed before rel target
            (record s { entries = put path_of (rel, e.1) (remove path_of (tmp_of rel) s.entries) })
    moved_ok e s q h = record {
      here =
          node-put rel e.1 (remove path_of (tmp_of rel) s.entries) rel
          ∙ ground (arith, text_eq_iff rel rel, q, h.1);
      replaced = was;
      others = λ p n m.
          node-put rel e.1 (remove path_of (tmp_of rel) s.entries) p
          ∙ ground (
            arith,
            text_eq_iff rel p,
            text_eq_iff (tmp_of rel) p,
            node-remove (tmp_of rel) s.entries p,
            h.0 p n,
          );
    }

    move_ok :
        (e : Option (Text × Node)) (o : Option (Text × Node)) (s : State)
        → at s (tmp_of rel) ≡ e
        → Linked s.entries
        → Post
            (λ u. Installed before rel target)
            (λ x. Same)
            (move_node (tmp_of rel) rel e o s).0
            (move_node (tmp_of rel) rel e o s).1
    move_ok none o s q h = h.0
    move_ok (some e) (some (p, directory)) s q h = h.0
    move_ok (some e) none s q h = moved_ok e s q h
    move_ok (some e) (some (p, regular)) s q h = moved_ok e s q h
    move_ok (some e) (some (p, symlink t)) s q h = moved_ok e s q h

    rename_ok :
        (s : State)
        → Linked s.entries
        → Post
            (λ u. Installed before rel target)
            (λ x. Same)
            (rename (tmp_of rel) rel s).0
            (rename (tmp_of rel) rel s).1
    unfolding rename
    rename_ok s h =
        (Ensures-bind call _ (Ensures-weaken call (λ a t k. k) (λ e t k. k.0) (call_ok Linked))
            λ u. record { at = λ t k. move_ok (at t (tmp_of rel)) (at t rel) t refl k }).at
          s h

    or_else_ok :
        (r : Result Failure Unit) (s : State)
        → Post (λ u. Installed before rel target) (λ x. Same) r s
        → Post
            (λ u. Installed before rel target)
            (λ x. Same)
            (or_else r (attempt (remove_entry (tmp_of rel))) s).0
            (or_else r (attempt (remove_entry (tmp_of rel))) s).1
    or_else_ok (ok u) s h = h
    or_else_ok (err e) s h = remove_entry-Keeps.at s h

    pub swap_ok : Ensures Same (swap rel target) (λ u. Installed before rel target) (λ e. Same)
    unfolding swap
    swap_ok = Ensures-bind _ _ attempt-Ensures λ u.
        Ensures-bind (make_symlink target (tmp_of rel)) _ (make_symlink_ok u) λ v. record {
          at = λ s h.
              or_else_ok (rename (tmp_of rel) rel s).0 (rename (tmp_of rel) rel s).1
                (rename_ok s h);
        }
