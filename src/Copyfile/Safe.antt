-- ===== src/Copyfile/Safe.antt =====
-- Copy of copyfile/copyfile.go as a whole.

use mediamanager.Base.{
  ℕ, ◌-◌, ◌≡◌, refl, ◌≢◌, ◌⊎◌, inl, inr, true, false, ◌&&◌, ◌||◌, not, Option, none, some, List, [],
  ◌++◌, if◌then◌else◌, length, Text, ℕ_eq, Text_eq, Pair_eq, ◌==◌, Result, err, ok,
}
use mediamanager.Base.Exec.{pure, fail, ◌>>=◌, ◌>>◌}
use mediamanager.Base.Exec.Keeps.{
  Post, Ensures, Keeps-Ensures, Ensures-bind, Ensures-weaken, Ensures-if, Ensures-fact,
}
use mediamanager.Files.{File, World, Error, source_mismatch, call, open_file}
use mediamanager.Identity.{sparse, full}
use mediamanager.Copyfile.{
  partial_suffix, Options, Copied, with_defaults, resume_point, stream, identified, create,
  completed, finish, copy,
}
use mediamanager.Copyfile.Keeps.{Kept, call-Keeps, create-Keeps, resume_point-Keeps, stream-Keeps}
use mediamanager.Copyfile.Finish.{finish_ok}
use mediamanager.Copyfile.Outcome.{Matches, Installed, open_ok, Answer, completed_ok}

-- What a copy that returns has done, given the files before it.
pub record Delivered (sha256 : List ℕ → List ℕ) (before : Text → Option File) (dst : Text)
    (src : File) (r : Copied) (w : World) : Type 0 where
  pub size_is : r.size ≡ length src.content
  pub id_is : sparse sha256 src.content (length src.content) ≡ ok r.id
  pub how :
      (r.already_complete ≡ true
        × Kept before (dst ++ partial_suffix) w
        × ((g : File) × before dst ≡ some g × Matches sha256 (length src.content) r.id g))
      ⊎ (r.already_complete ≡ false
          × before dst ≡ none
          × Installed sha256 before dst src r.id w.files)

module _ (sha256 : List ℕ → List ℕ) (before : Text → Option File) (dst : Text) (src : File) where
  abbrev Old : World → Type 0
  Old w = Kept before (dst ++ partial_suffix) w

  identified_ok :
      {X : Type 0} (r : Result X Text) (s : Result X Text)
      → s ≡ r
      → Ensures Old (identified r) (λ id w. Old w × s ≡ ok id) (λ e. Old)
  identified_ok (ok id) s q = record { at = λ w h. (h, q) }
  identified_ok (err e) s q = record { at = λ w h. h }

  module _ (o : Options) (id : Text)
      (same : sparse sha256 src.content (length src.content) ≡ ok id) where
    report_ok :
        (full_sha256 : Text) (resumed : ℕ)
        → before dst ≡ none
        → Ensures {E = Error}
            (λ w. Installed sha256 before dst src id w.files)
            (pure (record {
              size = length src.content;
              id = id;
              full_sha256 = full_sha256;
              resumed = resumed;
              already_complete = false;
            }))
            (Delivered sha256 before dst src)
            (λ e. Old)
    report_ok full_sha256 resumed absent = record {
      at = λ w h. record { size_is = refl; id_is = same; how = inr (refl, absent, h) };
    }

    transfer_ok :
        before dst ≡ none
        → Ensures Old
            (do
              call
              create (dst ++ partial_suffix)
              (resumed, prefix) ←
                  resume_point src
                    (dst ++ partial_suffix)
                    (length src.content)
                    o.hash_resumed_prefix
              call
              call
              hashed ←
                  stream src.content
                    (dst ++ partial_suffix)
                    o.buffer_size
                    (length src.content - resumed)
                    resumed
                    prefix
              finish sha256 src dst (length src.content) id
              pure (record {
                size = length src.content;
                id = id;
                full_sha256 =
                    if resumed == 0 || o.hash_resumed_prefix then full sha256 hashed else [];
                resumed = resumed;
                already_complete = false;
              }))
            (Delivered sha256 before dst src)
            (λ e. Old)
    transfer_ok absent = Ensures-bind call _ (Keeps-Ensures (call-Keeps before _)) λ u.
        Ensures-bind (create _) _ (Keeps-Ensures (create-Keeps before _)) λ v.
          Ensures-bind (resume_point _ _ _ _) _ (Keeps-Ensures (resume_point-Keeps before _ _ _ _))
            λ rp. Ensures-bind call _ (Keeps-Ensures (call-Keeps before _)) λ seek_in.
              Ensures-bind call _ (Keeps-Ensures (call-Keeps before _)) λ seek_out.
                Ensures-bind (stream _ _ _ _ _ _) _
                  (Keeps-Ensures (stream-Keeps before _ _ _ _ _ _))
                  λ hashed.
                    Ensures-bind (finish _ _ _ _ _) _ (finish_ok sha256 before dst src id hashed)
                      λ x. report_ok _ _ absent

    already_ok :
        ((g : File) × before dst ≡ some g × Matches sha256 (length src.content) id g)
        → Ensures {E = Error} Old
            (pure (record {
              size = length src.content;
              id = id;
              full_sha256 = [];
              resumed = 0;
              already_complete = true;
            }))
            (Delivered sha256 before dst src)
            (λ e. Old)
    already_ok there = record {
      at = λ w h. record { size_is = refl; id_is = same; how = inl (refl, h, there) };
    }

  pub copy_ok :
      (path : Text) (o : Options)
      → path ≢ (dst ++ partial_suffix)
      → before path ≡ some src
      → Ensures Old (copy sha256 path dst o) (Delivered sha256 before dst src) (λ e. Old)
  unfolding copy
  copy_ok path o n q =
      Ensures-bind (open_file path) _
        (Ensures-weaken _ (λ f w h. h) (λ e w h. h.0) (open_ok sha256 before dst path n))
        λ f. Ensures-fact λ here. rw (same_file here) (
          Ensures-bind call _ (Keeps-Ensures (call-Keeps before _)) λ u.
            Ensures-bind (identified _) _
              (identified_ok (sparse sha256 src.content (length src.content)) _ refl)
              λ id. Ensures-fact λ same.
                Ensures-if
                  (not ((with_defaults o).expect_id == [])
                    && not (id == (with_defaults o).expect_id))
                  (fail source_mismatch) _ (λ t. record { at = λ w h. h })
                  λ t.
                    Ensures-bind (completed _ _ _ _) _
                      (completed_ok sha256 before dst (length src.content) id)
                      λ done.
                        Ensures-fact {F = Answer sha256 before dst (length src.content) id done}
                          λ d.
                            Ensures-if done _ _ (λ t. already_ok (with_defaults o) id same (d.1 t))
                              (λ t. transfer_ok (with_defaults o) id same (d.0 t)))
    where
      same_file : {f : File} → before path ≡ some f → f ≡ src
      same_file here = cc

-- For every choice of failing calls and of the moment of cancellation, a copy that fails leaves
-- every file but the partial one as it was, and a copy that returns has either found dst
-- complete and changed nothing but the partial file, or has put in place of an absent dst a file
-- with the size, the sparse identity and the time of the source, with the partial file gone and
-- every other file as it was. The partial name is not that of the source.
pub copy_outcome :
    (sha256 : List ℕ → List ℕ) (src dst : Text) (o : Options) (w : World) (in_file : File)
    → src ≢ (dst ++ partial_suffix)
    → w.files src ≡ some in_file
    → Post
        (Delivered sha256 w.files dst in_file)
        (λ e. Kept w.files (dst ++ partial_suffix))
        (copy sha256 src dst o w).0
        (copy sha256 src dst o w).1
copy_outcome sha256 src dst o w in_file n q =
    (copy_ok sha256 w.files dst in_file src o n q).at w λ p m. refl
