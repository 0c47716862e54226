-- ===== src/Scan/Recognised.antt =====
-- What Scan of scan/scan.go reports of the files it finds.

use mediamanager.Base.Sorting.{sort, In-sort}
use mediamanager.Base.{
  ℕ, ◌≡◌, refl, sym, subst, ◌≢◌, ◌⊎◌, inl, inr, false, List, [], ◌∷◌, ◌++◌, arith, Bool-cases, In,
  Text, ℕ_eq, Text_eq, Pair_eq, Result, ok, err, ◌>>=◌, >>=-eq-ok,
}
use mediamanager.Clock.{Time, zero_time}
use mediamanager.Media.{Kind, unknown, kind_eq_iff, Kind_eq}
use mediamanager.Scan.{
  Shape, Role, original, proxy, sidecar, proxy_sidecar, File, name, role_of, is_junk, Classifier,
  classify,
}
use mediamanager.Scan.Walk.{
  Node, regular, no_info, special, unreadable, directory, Entries, nil, entry, Error, read_error,
  Found, foreign, file_of, visit, child, walk, walk_node, rel_ltb, start_of, scan,
}

-- A reported file is media or a companion, with the kind and the role that its name and its place
-- give it.
pub record Recognised (c : Classifier) (f : File) : Type 0 where
  pub kind_is : f.kind ≡ (classify c (name f)).0
  pub role_is : f.role ≡ role_of f.rel f.kind f.ext
  pub wanted : (f.kind ≢ unknown) ⊎ (f.role ≢ original)

module _ (c : Classifier) (root : Text) where
  abbrev AllKnown : Found → Type 0
  AllKnown found = (f : File) → In f found.files → Recognised c f

  abbrev Good : Result Error Found → Type 0
  Good (ok found) = AllKnown found
  Good (err e) = Unit

  In-snoc : (f g : File) (fs : List File) → In f (fs ++ (g ∷ [])) → In f fs ⊎ (g ≡ f)
  In-snoc f g [] (inl e) = inr e
  In-snoc f g [] (inr m) = absurd m
  In-snoc f g (h ∷ fs) (inl e) = inl (inl e)
  In-snoc f g (h ∷ fs) (inr m) = ground (arith, In-snoc f g fs m)

  wanted_of : (k : Kind) (r : Role) → foreign k r ≡ false → (k ≢ unknown) ⊎ (r ≢ original)
  unfolding foreign
  wanted_of k original h = inl λ e. ground (arith, kind_eq_iff k unknown)
  wanted_of k proxy h = inr λ e. ground arith
  wanted_of k sidecar h = inr λ e. ground arith
  wanted_of k proxy_sidecar h = inr λ e. ground arith

  file_of-Recognised :
      (rel : Text) (size : ℕ) (t : Time)
      → foreign (file_of c root rel size t).kind (file_of c root rel size t).role ≡ false
      → Recognised c (file_of c root rel size t)
  unfolding name
  file_of-Recognised rel size t h = record {
    kind_is = refl;
    role_is = refl;
    wanted = wanted_of _ _ h;
  }

  visit-Good :
      (rel : Text) (node : Node) (found : Found)
      → AllKnown found
      → Good (visit c root rel node found)
  unfolding visit
  visit-Good rel node found h =
      elim (Bool-cases
        (foreign (file_of c root rel 0 zero_time).kind (file_of c root rel 0 zero_time).role)) [
          | inl b ↦ rw b h
          | inr b ↦ rw b (added rel node found b h)
        ]
    where
      added :
          (rel : Text) (node : Node) (found : Found)
          → foreign (file_of c root rel 0 zero_time).kind (file_of c root rel 0 zero_time).role
            ≡ false
          → AllKnown found
          → Good (elim node as (λ x. Result Error Found) [
            | regular size mod_time ↦
                ok (record found { files = found.files ++ (file_of c root rel size mod_time ∷ []) })
            | other ↦ err read_error
          ])
      added rel (regular size t) found b h = λ f m. elim (In-snoc f _ found.files m) [
        | inl i ↦ h f i
        | inr e ↦ subst (Recognised c) e (file_of-Recognised rel size t b)
      ]
      added rel no_info found b h = tt
      added rel special found b h = tt
      added rel unreadable found b h = tt
      added rel (directory es) found b h = tt

  then_Good :
      (r : Result Error Found) (f : Found → Result Error Found)
      → Good r
      → ((found : Found) → AllKnown found → Good (f found))
      → Good (r >>= f)
  then_Good (ok found) f h k = k found h
  then_Good (err e) f h k = tt

  mutual
    unfolding walk

    walk-Good :
        (dir : Text) (es : Entries) (found : Found)
        → AllKnown found
        → Good (walk c root dir es found)
    walk-Good dir nil found h = h
    walk-Good dir (entry n node rest) found h =
        let later = walk-Good dir rest in
        let here = walk_node-Good (child dir n) node found h in
        elim (Bool-cases (is_junk n)) [
          | inl b ↦ rw b (later found h)
          | inr b ↦ rw b (then_Good (walk_node c root (child dir n) node found) _ here later)
        ]

    walk_node-Good :
        (rel : Text) (node : Node) (found : Found)
        → AllKnown found
        → Good (walk_node c root rel node found)
    walk_node-Good rel unreadable found h = tt
    walk_node-Good rel special found h = h
    walk_node-Good rel (directory es) found h = walk-Good rel es found h
    walk_node-Good rel no_info found h = visit-Good rel no_info found h
    walk_node-Good rel (regular size t) found h = visit-Good rel (regular size t) found h

-- Every file that Scan reports is media or a companion, with the kind and the role that its name
-- and its place give it: an original of no known kind is never reported.
pub scan-Recognised :
    (root : Text) (c : Classifier) (es : Entries) (shape : Shape) (found : Found)
    → scan root c es ≡ ok (shape, found)
    → (f : File) → In f found.files
    → Recognised c f
unfolding scan
scan-Recognised root c es shape found q f m =
    let (mid, a, b) =
      >>=-eq-ok
        (walk c root (start_of es).0 (start_of es).1 (record { files = []; unrecognised = [] })) _
        q in
    let same : sort rel_ltb mid.files ≡ found.files = cc in
    subst (Good c root) a
      (walk-Good c root (start_of es).0 (start_of es).1 (record { files = []; unrecognised = [] })
        λ g i. absurd i)
      f (In-sort rel_ltb f mid.files (subst (In f) (sym same) m))
