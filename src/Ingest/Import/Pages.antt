-- ===== src/Ingest/Import/Pages.antt =====
-- AllArchivedOn of ingest/import.go: the pages of a source's assets.

use mediamanager.Ingest.Store.{Store}
use mediamanager.Ingest.Kept.{ask-Ensures}
use mediamanager.Base.{
  ℕ, zero, suc, ◌+◌, ◌≡◌, refl, sym, ap, ◌∙◌, subst, ◌⊎◌, inl, inr, Bool, true, List, [], ◌∷◌, ◌++◌,
  arith, nat_eq_iff, Bool-cases, length, take, drop, take-append-drop, keep, is_empty, any, All, In,
  All-In, keep-In, Text, text_eq_iff, text_ltb, ℕ_eq, Text_eq, Pair_eq, ◌==◌, ok,
}
use mediamanager.Base.Exec.Keeps.{
  Ensures, Ensures-bind, Ensures-weaken, Ensures-if, Ensures-fact, Post-ok,
}
use mediamanager.Base.Sorting.{sort, sort-In}
use mediamanager.Ingest.Env.{Env, Place}
use mediamanager.Ingest.Import.{page_size, page_archived, pages_archived}
use mediamanager.Ingest.Import.SafeToFormat.{OnMountedNas, archived_ok, Answers}
use mediamanager.Identity
use mediamanager.Catalog.{LocationKind_eq, CopyState_eq, Role_eq, SourceFile, Db}
use mediamanager.Catalog.Sources.{first_of_each, page, source_asset_ids}

All-append : {A : Type 0} (P : A → Type 0) (xs ys : List A) → All P xs → All P ys → All P (xs ++ ys)
All-append P [] ys h k = k
All-append P (x ∷ xs) ys h k = (h.0, All-append P xs ys h.1 k)

pub take-nil : {A : Type 0} (m : ℕ) → take {A = A} m [] ≡ []
take-nil zero = refl
take-nil (suc m) = refl

append_nil : {A : Type 0} (xs : List A) → xs ++ [] ≡ xs
append_nil [] = refl
append_nil (x ∷ xs) = ap (◌∷◌ x) (append_nil xs)

take-empty : {A : Type 0} (n : ℕ) (xs : List A) → take (suc n) xs ≡ [] → xs ≡ []
take-empty n [] e = refl
take-empty n (x ∷ xs) e = absurd (cc)

-- A longer prefix is the prefix and what follows it.
take-more : {A : Type 0} (n m : ℕ) (xs : List A) → take n xs ++ take m (drop n xs) ≡ take (n + m) xs
take-more zero m xs = let e : m ≡ 0 + m = omega arith in ap (λ k. take k xs) e
take-more (suc n) m [] = take-nil m ∙ sym (take-nil (suc n + m))
take-more (suc n) m (x ∷ xs) =
    let e : suc (n + m) ≡ suc n + m = omega arith in
    ap (◌∷◌ x) (take-more n m xs) ∙ ap (λ k. take k (x ∷ xs)) e

first_of_each-here :
    (seen : List Text) (id : Text) (g : SourceFile) (fs : List SourceFile)
    → g.asset_id ≡ id
    → (any (λ x. x == id) seen ≡ true) ⊎ In id (first_of_each seen (g ∷ fs))
unfolding first_of_each
first_of_each-here seen id g fs e = elim (Bool-cases (any (λ x. x == g.asset_id) seen)) [
  | inl b ↦ inl (ap (λ y. any (λ x. x == y) seen) (sym e) ∙ b)
  | inr b ↦ inr (rw b (inl e))
]

-- The asset of every row is listed, or was before.
first_of_each-In :
    (seen : List Text) (f : SourceFile) (fs : List SourceFile)
    → In f fs
    → (any (λ id. id == f.asset_id) seen ≡ true) ⊎ In f.asset_id (first_of_each seen fs)
unfolding first_of_each
first_of_each-In seen f [] m = absurd m
first_of_each-In seen f (g ∷ fs) (inl e) =
    first_of_each-here seen f.asset_id g fs (ap (λ (x : SourceFile). x.asset_id) e)
first_of_each-In seen f (g ∷ fs) (inr m) = elim (first_of_each-In (g.asset_id ∷ seen) f fs m) [
  | inl e ↦ elim (Bool-cases (g.asset_id == f.asset_id)) [
    | inr z ↦ inl (ground (arith, e, z))
    | inl z ↦ first_of_each-here seen f.asset_id g fs ((text_eq_iff g.asset_id f.asset_id).0 z)
  ]
  | inr i ↦ elim (Bool-cases (any (λ id. id == g.asset_id) seen)) [
    | inl b ↦ inr (rw b i)
    | inr b ↦ inr (rw b (inr i))
  ]
]

-- The list that the pages are cut from.
abbrev pub ids_of : Db → ℕ → List Text
ids_of db loc_id = first_of_each [] (
    sort (λ (f g : SourceFile). text_ltb f.path g.path)
      (keep (λ f. f.location_id == loc_id) db.source_files))

module _ (ps : List Place) (d : Db) (sha256 : Identity.Bytes → Identity.Bytes) (env : Env) where
  pub page_archived_ok :
      (ids : List Text)
      → Ensures
          (λ s. s.db ≡ d)
          (page_archived sha256 env ps ids)
          (Answers ps d sha256 env ids)
          (λ e s. s.db ≡ d)
  unfolding page_archived
  page_archived_ok [] = record { at = λ s h. (h, λ q. tt) }
  page_archived_ok (id ∷ ids) = Ensures-bind _ _ (archived_ok ps d id) λ b.
      Ensures-if b _ _
        (λ q.
          Ensures-weaken _ (λ c s k. k) (λ e s k. k)
            (Ensures-fact λ yes.
              Ensures-weaken _ (λ c s h. (h.0, λ r. (yes q, h.1 r))) (λ e s h. h)
                (page_archived_ok ids)))
        (λ q. record { at = λ s h. (h.0, λ r. cc) })

  module _ (loc_id : ℕ) where
    -- A yes of the loop is a yes for every asset on the source.
    abbrev Covers : Bool → Store → Type 0
    Covers b s = (s.db ≡ d) × (b ≡ true → All (OnMountedNas d ps) (ids_of d loc_id))

    whole :
        (offset : ℕ) (ids : List Text)
        → ids ≡ source_asset_ids d loc_id offset page_size
        → ids ≡ []
        → All (OnMountedNas d ps) (take offset (ids_of d loc_id))
        → All (OnMountedNas d ps) (ids_of d loc_id)
    unfolding source_asset_ids page
    whole offset ids e n h =
        let ended : take page_size (drop offset (ids_of d loc_id)) ≡ [] = sym e ∙ n in
        subst (All (OnMountedNas d ps))
          (sym (append_nil _)
            ∙ ap (◌++◌ (take offset (ids_of d loc_id))) (sym (take-empty 999 _ ended))
            ∙ take-append-drop offset (ids_of d loc_id))
          h

    -- A page more is covered.
    one_more :
        (offset : ℕ) (ids : List Text)
        → ids ≡ source_asset_ids d loc_id offset page_size
        → All (OnMountedNas d ps) (take offset (ids_of d loc_id))
        → All (OnMountedNas d ps) ids
        → All (OnMountedNas d ps) (take (offset + page_size) (ids_of d loc_id))
    unfolding source_asset_ids page
    one_more offset ids e h k =
        subst (All (OnMountedNas d ps)) (take-more offset page_size (ids_of d loc_id))
          (All-append (OnMountedNas d ps) _ _ h (subst (All (OnMountedNas d ps)) e k))

    pages_archived_ok :
        (fuel offset n : ℕ)
        → All (OnMountedNas d ps) (take offset (ids_of d loc_id))
        → Ensures
            (λ s. s.db ≡ d)
            (pages_archived sha256 env ps loc_id fuel offset n)
            Covers
            (λ e s. s.db ≡ d)
    unfolding pages_archived
    pages_archived_ok zero offset n h = record { at = λ s k. (k, λ q. cc) }
    pages_archived_ok (suc fuel) offset n h =
        Ensures-bind _ _ (ask-Ensures d (λ db. source_asset_ids db loc_id offset page_size)) λ ids.
          Ensures-fact λ e.
            Ensures-if (is_empty ids) _ _
              (λ q. record { at = λ s k. (k, λ r. whole offset ids e (ground (arith, q)) h) })
              λ q. Ensures-bind _ _ (page_archived_ok ids) λ done. Ensures-fact λ yes.
                Ensures-if done _ _
                  (λ t.
                    pages_archived_ok fuel (offset + page_size) (n + length ids)
                      (one_more offset ids e h (yes t)))
                  (λ t. record { at = λ s k. (k, λ r. cc) })

    -- AllArchivedOn answers yes, over however many pages, only when every file that the catalog
    -- has of the source is of an asset with a complete copy on a NAS that is mounted among the
    -- places.
    pub pages_archived-OnMountedNas :
        (fuel : ℕ) (s : Store)
        → s.db ≡ d
        → (pages_archived sha256 env ps loc_id fuel 0 0 s).0 ≡ ok true
        → (f : SourceFile) → In f d.source_files
        → f.location_id ≡ loc_id
        → OnMountedNas d ps f.asset_id
    pages_archived-OnMountedNas fuel s h q f m e =
        let covered : Ensures (λ s. s.db ≡ d) (pages_archived sha256 env ps loc_id fuel 0 0) Covers
            (λ e s. Unit {0}) =
          Ensures-weaken _ (λ b s k. k) (λ e s k. tt) (pages_archived_ok fuel 0 0 tt) in
        let all = (Post-ok Covers _ _ true (covered.at s h) q).1 refl in
        let kept =
          sort-In (λ (f g : SourceFile). text_ltb f.path g.path) f _
            (keep-In (λ (f : SourceFile). f.location_id == loc_id) f d.source_files m
              ((nat_eq_iff f.location_id loc_id).1 e)) in
        elim (first_of_each-In [] f _ kept) [
          | inl z ↦ absurd (ground (arith, z))
          | inr i ↦ All-In (OnMountedNas d ps) (ids_of d loc_id) all i
        ]
