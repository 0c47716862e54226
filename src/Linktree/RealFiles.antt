-- ===== src/Linktree/RealFiles.antt =====
-- Rule R5 of linktree/linktree.go: Reconcile leaves files and directories alone.

use mediamanager.Base.Sorting.{In-sort, sort}
use mediamanager.Base.Exec.Keeps.{
  Keeps, Post, Keeps-pure, Keeps-fail, Keeps-if, Keeps-bind, Ensures-Keeps,
}
use mediamanager.Base.{
  ◌≡◌, refl, sym, ap, ◌∙◌, ◌≢◌, ◌⊎◌, inl, inr, false, ◌&&◌, Option, none, some, List, [], ◌∷◌, ◌++◌,
  arith, if◌then◌else◌, Bool-cases, any, In, Text, text_eq_iff, text_ltb, has_prefix, ℕ_eq, Text_eq,
  Pair_eq, ◌==◌, Result, err, ok,
}
use mediamanager.SlashPath
use mediamanager.Linktree.{
  tmp_prefix, Node, symlink, regular, directory, State, Failure, not_exist, TreeOs, path_of, at,
  call, below, remove_node, remove_entry, removed, tmp_of, Change, place, Report, note, place_all,
  in_junk, is_directory, collect_extra, extra_links, want_ltb, reconcile, find,
}
use mediamanager.Linktree.Swap.{node_of, node_at, node-remove, Kept, call_ok}
use mediamanager.Linktree.Place.{Placed, place_ok}

-- A file or a directory.
abbrev pub IsReal : Node → Type 0
IsReal n = (t : Text) → n ≢ symlink t

module _ (path : Text) (n : Node) (real : IsReal n) where
  -- The node is where it was.
  abbrev There : State → Type 0
  There s = node_at s path ≡ some n

  -- A link to be placed is not in the way.
  pub record Clear (rel : Text) : Type 0 where
    pub apart : rel ≢ tmp_of rel
    pub not_tmp : path ≢ tmp_of rel

  place-There :
      (rel target : Text) (s : State) (c : Clear rel)
      → There s
      → (r : Result Failure Change) (t : State)
      → Post (Placed (node_at s) rel target c.apart) (λ e. Kept (node_at s) (tmp_of rel)) r t
      → There t
  place-There rel target s c h (err e) t k = k path c.not_tmp ∙ h
  place-There rel target s c h (ok x) t (inl k) = k.1 path c.not_tmp ∙ h
  place-There rel target s c h (ok x) t (inr k) =
      k.1.others path c.not_tmp (λ e. differ e k.1.replaced) ∙ h
    where
      differ :
          path ≡ rel
          → (node_at s rel ≡ none) ⊎ ((old : Text) × (node_at s rel ≡ some (symlink old)))
          → ⊥
      differ e (inl z) = ground (arith, h, e, z)
      differ e (inr (old, z)) = real old (some_inj (sym h ∙ ap (node_at s) e ∙ z))
        where
          some_inj : {x y : Node} → some x ≡ some y → x ≡ y
          some_inj q = cc

  place-Keeps : (rel target : Text) → Clear rel → Keeps There (place rel target)
  place-Keeps rel target c = record {
    at = λ s h.
        place-There rel target s c h (place rel target s).0 (place rel target s).1
          ((place_ok (node_at s) rel target c.apart).at s λ p m. refl);
  }

  call-Keeps : Keeps There call
  call-Keeps = Ensures-Keeps There call (
      call_ok (node_at (record { entries = []; faults = [] })) [] []
        λ es. node_of (find path_of path es) ≡ some n)

  remove_node-There :
      (rel : Text) (o : Option (Text × Node)) (s : State)
      → rel ≢ path
      → There s
      → There (remove_node rel o s).1
  remove_node-There rel none s d h = h
  remove_node-There rel (some e) s d h = elim (Bool-cases (any (below rel) s.entries)) [
    | inl q ↦ rw q h
    | inr q ↦ rw q (node-remove rel s.entries path ∙ ground (arith, h, text_eq_iff rel path))
  ]

  remove_entry-Keeps : (rel : Text) → rel ≢ path → Keeps There (remove_entry rel)
  unfolding remove_entry
  remove_entry-Keeps rel d =
      Keeps-bind call _ call-Keeps
        λ u. record { at = λ s h. remove_node-There rel (at s rel) s d h }

  place_all-Keeps :
      (want : List (Text × Text)) (rep : Report)
      → ((w : Text × Text) → In w want → Clear w.0)
      → Keeps There (place_all want rep)
  unfolding place_all
  place_all-Keeps [] rep c = Keeps-pure rep
  place_all-Keeps ((rel, target) ∷ want) rep c =
      Keeps-bind (place rel target) _ (place-Keeps rel target (c (rel, target) (inl refl)))
        λ change. place_all-Keeps want (note change rel rep) λ w i. c w (inr i)

  module _ (named : has_prefix (SlashPath.base path) tmp_prefix ≡ false) where
    collect_extra-Keeps :
        (want : List (Text × Text)) (es : List (Text × Node)) (extra : List Text)
        → Keeps There (collect_extra want es extra)
    unfolding collect_extra
    collect_extra-Keeps want [] extra = Keeps-pure extra
    collect_extra-Keeps want ((rel, node) ∷ es) extra =
        let rest = collect_extra-Keeps want es in
        elim (Bool-cases (in_junk rel)) [
          | inl j ↦ rw j (rest extra)
          | inr j ↦ elim (Bool-cases (has_prefix (SlashPath.base rel) tmp_prefix)) [
            | inl b ↦
                rw (j, b)
                  (Keeps-bind (removed (remove_entry rel)) _
                    (record {
                      at = λ s h. (remove_entry-Keeps rel λ e. ground (arith, b, named, e)).at s h;
                    })
                    λ gone.
                      Keeps-if (gone && is_directory node) _ _ (Keeps-fail not_exist) (rest extra))
            | inr b ↦ rw (j, b) (by_node node rest)
          ]
        ]
      where
        by_node :
            (m : Node)
            → ((x : List Text) → Keeps There (collect_extra want es x))
            → Keeps There (elim m as (λ x. TreeOs (List Text)) [
              | symlink t ↦ collect_extra want es (
                  if any (λ (w : Text × Text). w.0 == rel) want then extra else extra ++ (rel ∷ []))
              | other ↦ collect_extra want es extra
            ])
        by_node (symlink t) later = later _
        by_node regular later = later extra
        by_node directory later = later extra

    extra_links-Keeps : (want : List (Text × Text)) → Keeps There (extra_links want)
    unfolding extra_links
    extra_links-Keeps want = Keeps-bind call _ call-Keeps λ u.
        Keeps-bind (λ s. collect_extra want s.entries [] s) _
          (record { at = λ s h. (collect_extra-Keeps want s.entries []).at s h })
          λ extra. Keeps-pure (sort text_ltb extra)

    reconcile-Keeps :
        (want : List (Text × Text))
        → ((w : Text × Text) → In w want → Clear w.0)
        → Keeps There (reconcile want false)
    unfolding reconcile
    reconcile-Keeps want c = Keeps-bind call _ call-Keeps λ u.
        Keeps-bind (place_all (sort want_ltb want) _) _
          (place_all-Keeps (sort want_ltb want) _ λ w i. c w (In-sort want_ltb w want i))
          λ rep.
            Keeps-bind (extra_links want) _ (extra_links-Keeps want) λ unknown_now. Keeps-pure _

-- Reconcile without Prune leaves every file and every directory of the tree where it was,
-- whichever call fails, even at a path that is wanted for a link. The path has no temporary
-- name, and no wanted link has its own temporary name or one at that path.
pub reconcile-keeps_real :
    (want : List (Text × Text)) (s : State) (path : Text) (n : Node) (real : IsReal n)
    → has_prefix (SlashPath.base path) tmp_prefix ≡ false
    → ((w : Text × Text) → In w want → Clear path n real w.0)
    → node_at s path ≡ some n
    → node_at (reconcile want false s).1 path ≡ some n
reconcile-keeps_real want s path n real named clear h =
    (reconcile-Keeps path n real named want clear).at s h
