-- ===== src/Ingest/Tiers/Copying.antt =====
-- copyTo of ingest/steps.go: a location comes to hold an asset only by a copy that was verified.
use mediamanager.Table.{Distinct}
use mediamanager.Catalog.Copies.{put_copy}
use mediamanager.Base.Exec.{◌>>=◌, ◌>>◌}
use mediamanager.Base.{
  ℕ, ◌≡◌, refl, ◌∙◌, ◌⊎◌, inl, inr, Bool, true, false, ◌&&◌, Option, none, some, List, [], arith,
  if◌then◌else◌, nat_eq_iff, Bool-cases, Text, text_eq_iff, ℕ_eq, Text_eq, Pair_eq, ◌==◌, Result,
  err, ok,
}
use mediamanager.Base.Exec.Keeps.{
  Keeps, Post, Ensures, Keeps-pure, Keeps-if, Keeps-Ensures, Keeps-bind, Ensures-bind,
  Ensures-weaken, Ensures-fact, Ensures-from,
}
use mediamanager.Ingest.Store.{
  Store, Failure, no_readable_copy, Step, from_result, on_files, statement,
}
use mediamanager.Ingest.Env.{Env, Place, tree_rel}
use mediamanager.Ingest.Kept.{
  set_full_sha256-Untouched, On, statement-Keeps, statement-Ensures, on_files-Ensures,
}
use mediamanager.Ingest.Kept.Steps.{sync_companions-Keeps}
use mediamanager.Ingest.Kept.Links.{reconcile_asset-Keeps}
use mediamanager.Ingest.Tiers.{Holding, with_copy, held}
use mediamanager.Ingest.Tiers.Rows.{Stands, put_copy-Stands}
use mediamanager.Ingest.{abs}
use mediamanager.Ingest.Transfer.{CopyResult, or_fail, row_of, copy_options, after_copy, copy_to}
use mediamanager.Copyfile.{Copied, Options, copy}
use mediamanager.Media.{video, audio, still, kind_eq, uses_sparse_id}
use mediamanager.Linktree.{choose}
use mediamanager.Files
use mediamanager.Identity
use mediamanager.Catalog.{
  LocationKind_eq, Location, Asset, copy_state_eq, CopyState_eq, Copy, JoinedCopy, Role_eq, Db,
  copy_key,
}

-- The copy that was made: from the chosen one to the place of the asset at dest.
pub record IsCopied (sha256 : Identity.Bytes → Identity.Bytes) (env : Env) (a : Asset)
    (cs : List JoinedCopy) (root_of : Location → Option Text) (dest : Place) (before : Files.World)
    : Type 0 where
  pub src : Text
  pub chosen : choose cs root_of ≡ some src
  pub rel : Text
  pub placed : tree_rel env a ≡ ok rel
  pub result : Copied
  pub after : Files.World
  pub options : Options
  pub identified : (a.kind ≡ video) ⊎ (a.kind ≡ audio) → options.expect_id ≡ a.id
  pub unidentified : a.kind ≡ still → options.expect_id ≡ []
  pub ran : copy sha256 src (abs dest.root rel) options before ≡ (ok result, after)

-- The identity that copyTo expects of a copy.
expect_id-recording :
    (a : Asset) → (a.kind ≡ video) ⊎ (a.kind ≡ audio) → (copy_options a).expect_id ≡ a.id
unfolding copy_options uses_sparse_id kind_eq
expect_id-recording a (inl e) = rw e refl
expect_id-recording a (inr e) = rw e refl

expect_id-still : (a : Asset) → a.kind ≡ still → (copy_options a).expect_id ≡ []
unfolding copy_options uses_sparse_id kind_eq
expect_id-still a e = rw e refl

-- A holding that is put back.
pub Stands-false :
    (ls0 : List Location) (h : Holding) (id : Text) (l : ℕ) (cs : List Copy) (ls : List Location)
    → h id l ≡ false
    → Stands ls0 (with_copy h id l false) cs ls
    → Stands ls0 h cs ls
unfolding with_copy
Stands-false ls0 h id l cs ls q s = record {
  same_locations = s.same_locations;
  keys = s.keys;
  holds = λ a k.
      s.holds a k
      ∙ ground (arith, q, text_eq_iff a id, nat_eq_iff k l, Bool-cases (a == id && k == l));
}

-- One that is changed twice.
pub Stands-twice :
    (ls0 : List Location) (h : Holding) (id : Text) (l : ℕ) (b c : Bool) (cs : List Copy)
    (ls : List Location)
    → Stands ls0 (with_copy (with_copy h id l b) id l c) cs ls
    → Stands ls0 (with_copy h id l c) cs ls
unfolding with_copy
Stands-twice ls0 h id l b c cs ls s = record {
  same_locations = s.same_locations;
  keys = s.keys;
  holds = λ a k. s.holds a k ∙ ground (arith, Bool-cases (a == id && k == l));
}

module _ (sha256 : Identity.Bytes → Identity.Bytes) (env : Env) where
  after_copy-Keeps :
      (P : List Copy → List Location → Type 0) (ps : List Place) (a : Asset)
      (root_of : Location → Option Text) (dest : Place) (res : Copied)
      → Keeps (On P) (after_copy sha256 env ps a root_of dest res)
  unfolding after_copy
  after_copy-Keeps P ps a root_of dest res =
      Keeps-bind _ _
        (Keeps-if _ _ _ (statement-Keeps P _ (set_full_sha256-Untouched a.id res.full_sha256))
          (Keeps-pure tt))
        λ u.
          Keeps-bind _ _ (sync_companions-Keeps P sha256 env a root_of dest false)
            λ n. Keeps-bind _ _ (reconcile_asset-Keeps P env ps a) λ v. Keeps-pure _

  module _ (ls0 : List Location) (h : Holding) (ps : List Place) (a : Asset) (cs : List JoinedCopy)
      (root_of : Location → Option Text) (dest : Place) (free : h a.id dest.cat.id ≡ false)
      (w : Files.World) where
    abbrev pub Before : Store → Type 0
    Before = On (Stands ls0 h)

    abbrev pub After : Store → Type 0
    After s =
        On (Stands ls0 (with_copy h a.id dest.cat.id true)) s
        × IsCopied sha256 env a cs root_of dest w

    abbrev pub Either : Failure → Store → Type 0
    Either e s = Before s ⊎ After s

    row-false :
        (rel sum : Text) (db db' : Db)
        → put_copy db (row_of a dest rel false sum env) ≡ ok db'
        → Stands ls0 h db.copies db.locations
        → Stands ls0 h db'.copies db'.locations
    unfolding row_of with_copy mediamanager.Catalog.copy_state_eq
    row-false rel sum db db' q s =
        Stands-false ls0 h a.id dest.cat.id _ _ free (put_copy-Stands ls0 h _ db db' q s)

    row-true :
        (rel sum : Text) (db db' : Db)
        → put_copy db (row_of a dest rel true sum env) ≡ ok db'
        → Stands ls0 h db.copies db.locations
        → Stands ls0 (with_copy h a.id dest.cat.id true) db'.copies db'.locations
    unfolding row_of mediamanager.Catalog.copy_state_eq
    row-true rel sum db db' q s = put_copy-Stands ls0 h _ db db' q s

    -- Once the copy is recorded as complete, it stays recorded.
    recorded_ok :
        (rel : Text) (res : Copied)
        → IsCopied sha256 env a cs root_of dest w
        → Ensures Before
            (do
              statement (λ db. put_copy db (
                  row_of a dest rel true
                    (if res.full_sha256 == [] then a.full_sha256 else res.full_sha256)
                    env))
              after_copy sha256 env ps a root_of dest res)
            (λ r. After)
            Either
    recorded_ok rel res c =
        Ensures-bind _ _
          (Ensures-from (λ s b. (b, tt))
            (Ensures-weaken _ (λ u s k. k.0) (λ e s k. inl k.0)
              (statement-Ensures (Stands ls0 h) (Stands ls0 (with_copy h a.id dest.cat.id true))
                (λ x. Unit) _ (row-true rel _))))
          λ u.
            Ensures-weaken _ (λ r s k. (k, c)) (λ e s k. inr (k, c))
              (Keeps-Ensures (
                after_copy-Keeps (Stands ls0 (with_copy h a.id dest.cat.id true)) ps a root_of dest
                  res))

    -- What follows the choice of the source and of the path.
    copied_ok :
        (src rel : Text)
        → choose cs root_of ≡ some src
        → tree_rel env a ≡ ok rel
        → Ensures
            (λ s. Before s × s.world ≡ w)
            (do
              statement (λ db. put_copy db (row_of a dest rel false [] env))
              res ← on_files (copy sha256 src (abs dest.root rel) (copy_options a))
              statement (λ db. put_copy db (
                  row_of a dest rel true
                    (if res.full_sha256 == [] then a.full_sha256 else res.full_sha256)
                    env))
              after_copy sha256 env ps a root_of dest res)
            (λ r. After)
            Either
    copied_ok src rel chosen placed =
        Ensures-bind _ _
          (Ensures-weaken _ (λ u s k. k) (λ e s k. inl k.0)
            (statement-Ensures (Stands ls0 h) (Stands ls0 h) (λ x. x ≡ w) _ (row-false rel [])))
          λ u.
            Ensures-bind _ _
              (Ensures-weaken _ (λ r s k. k) (λ e s k. inl k)
                (on_files-Ensures (Stands ls0 h) w
                  (copy sha256 src (abs dest.root rel) (copy_options a))))
              λ res. Ensures-fact λ f. recorded_ok rel res (record {
                src = src;
                chosen = chosen;
                rel = rel;
                placed = placed;
                result = res;
                after = f.0;
                options = copy_options a;
                identified = expect_id-recording a;
                unidentified = expect_id-still a;
                ran = f.1;
              })

    or_fail_ok :
        {X : Type 0} (e : Failure) (o : Option X) (f : X → Step CopyResult)
        → ((x : X) → o ≡ some x → Ensures (λ s. Before s × s.world ≡ w) (f x) (λ r. After) Either)
        → Ensures (λ s. Before s × s.world ≡ w) (or_fail e o >>= f) (λ r. After) Either
    or_fail_ok e none f k = record { at = λ s b. inl b.0 }
    or_fail_ok e (some x) f k = record { at = λ s b. (k x refl).at s b }

    result_ok :
        {X : Type 0} (o : Result Failure X) (f : X → Step CopyResult)
        → ((x : X) → o ≡ ok x → Ensures (λ s. Before s × s.world ≡ w) (f x) (λ r. After) Either)
        → Ensures (λ s. Before s × s.world ≡ w) (from_result (λ e. e) o >>= f) (λ r. After) Either
    result_ok (err e) f k = record { at = λ s b. inl b.0 }
    result_ok (ok x) f k = record { at = λ s b. (k x refl).at s b }

    pub copy_to_ok :
        Ensures
          (λ s. Before s × s.world ≡ w)
          (copy_to sha256 env ps a cs root_of dest)
          (λ r. After)
          Either
    unfolding copy_to
    copy_to_ok =
        or_fail_ok no_readable_copy (choose cs root_of) _
          λ src chosen. result_ok (tree_rel env a) _ λ rel placed. copied_ok src rel chosen placed

-- A copy that copyTo leaves recorded as complete, where none was before, was made by a call of
-- copyfile.Copy that returned: from the copy that Choose gives, to the place of the asset at
-- dest, with the id of the asset as the expected identity for video and audio, and none for a
-- still. This holds whichever call fails later. No two copies in the catalog had one key.
pub copy_to-IsCopied :
    (sha256 : Identity.Bytes → Identity.Bytes) (env : Env) (ps : List Place) (a : Asset)
    (cs : List JoinedCopy) (root_of : Location → Option Text) (dest : Place) (s : Store)
    → Distinct copy_key s.db.copies
    → held s.db.copies a.id dest.cat.id ≡ false
    → held (copy_to sha256 env ps a cs root_of dest s).1.db.copies a.id dest.cat.id ≡ true
    → IsCopied sha256 env a cs root_of dest s.world
copy_to-IsCopied sha256 env ps a cs root_of dest s keys free done =
    decide (copy_to sha256 env ps a cs root_of dest s).0
      (copy_to sha256 env ps a cs root_of dest s).1
      ((copy_to_ok sha256 env s.db.locations (held s.db.copies) ps a cs root_of dest free
          s.world).at
        s (record { same_locations = refl; keys = keys; holds = λ b l. refl }, refl))
      done
  where
    decide :
        (r : Result Failure CopyResult) (t : Store)
        → Post
            (λ r.
              After sha256 env s.db.locations (held s.db.copies) ps a cs root_of dest free s.world)
            (Either sha256 env s.db.locations (held s.db.copies) ps a cs root_of dest free s.world)
            r
            t
        → held t.db.copies a.id dest.cat.id ≡ true
        → IsCopied sha256 env a cs root_of dest s.world
    decide (ok r) t h q = h.1
    decide (err e) t (inr h) q = h.1
    decide (err e) t (inl h) q = absurd (ground (arith, h.holds a.id dest.cat.id, free, q))
