-- ===== src/Copyfile/Finish.antt =====
-- The end of a copy of copyfile/copyfile.go, from the sync to the rename, whatever call fails.

use mediamanager.Base.{
  ℕ, ◌≡◌, refl, sym, ◌∙◌, ◌≢◌, Option, none, some, List, ◌++◌, length, Text, ℕ_eq, Text_eq, Pair_eq,
  Result, err, ok,
}
use mediamanager.Base.Exec.Keeps.{Post, Ensures, Keeps-Ensures, Ensures-bind, Ensures-weaken}
use mediamanager.Files.{File, World, Error, update, found, call, change_file}
use mediamanager.Copyfile.{partial_suffix, moved, rename, as_verified, verify, finish}
use mediamanager.Copyfile.Keeps.{Kept, update_ne, update_eq, call-Keeps}
use mediamanager.Copyfile.Outcome.{Matches, Installed, partial_ne, call_files, verify_ok}

module _ (sha256 : List ℕ → List ℕ) (before : Text → Option File) (dst : Text) (src : File)
    (id : Text) where
  abbrev Unchanged : World → Type 0
  Unchanged w = Kept before (dst ++ partial_suffix) w

  -- The partial file is ready for the rename.
  record Ready (out : File) (files : Text → Option File) : Type 0 where
    kept : (p : Text) → p ≢ (dst ++ partial_suffix) → files p ≡ before p
    out_matches : Matches sha256 (length src.content) id out
    out_time : out.mod_time ≡ src.mod_time
    there : files (dst ++ partial_suffix) ≡ some out

  found_kept :
      (o : Option File) (w : World)
      → Unchanged w
      → Post (λ f. Unchanged) (λ e. Unchanged) (found o w).0 (found o w).1
  found_kept none w h = h
  found_kept (some f) w h = h

  change_file-Ready :
      (out : File) (u : Text)
      → Ensures
          (λ w. Unchanged w × Matches sha256 (length src.content) id out)
          (change_file (dst ++ partial_suffix) (some (record out { mod_time = src.mod_time })))
          (λ u w. Ready (record out { mod_time = src.mod_time }) w.files)
          (λ e. Unchanged)
  unfolding change_file
  change_file-Ready out u =
      Ensures-bind call _
        (Ensures-weaken _ (λ a w h. h) (λ e w h. h.0)
          (call_files λ files.
            ((p : Text) → p ≢ (dst ++ partial_suffix) → files p ≡ before p)
            × Matches sha256 (length src.content) id out))
        λ v. record {
          at = λ w h. record {
            kept = λ p n.
                update_ne w.files (dst ++ partial_suffix) p
                  (some (record out { mod_time = src.mod_time })) n
                ∙ h.0 p n;
            out_matches = record { same_size = h.1.same_size; same_id = h.1.same_id };
            out_time = refl;
            there = update_eq w.files (dst ++ partial_suffix) _;
          };
        }

  move_ok :
      (out : File) (o : Option File) (w : World)
      → w.files (dst ++ partial_suffix) ≡ o
      → Ready out w.files
      → Post
          (λ u w. Installed sha256 before dst src id w.files)
          (λ e. Unchanged)
          (moved (dst ++ partial_suffix) dst o w).0
          (moved (dst ++ partial_suffix) dst o w).1
  move_ok out none w q h = h.kept
  move_ok out (some f) w q h = record {
    final = out;
    here = update_eq (update w.files (dst ++ partial_suffix) none) dst (some f) ∙ sym q ∙ h.there;
    final_matches = h.out_matches;
    same_time = h.out_time;
    no_partial =
        update_ne (update w.files (dst ++ partial_suffix) none) dst (dst ++ partial_suffix) (some f)
          (λ e. partial_ne dst (sym e))
        ∙ update_eq w.files (dst ++ partial_suffix) none;
    others = λ p n m.
        update_ne (update w.files (dst ++ partial_suffix) none) dst p (some f) n
        ∙ update_ne w.files (dst ++ partial_suffix) p none m
        ∙ h.kept p m;
  }

  rename_ok :
      (out : File) (u : Unit {0})
      → Ensures
          (λ w. Ready out w.files)
          (rename (dst ++ partial_suffix) dst)
          (λ u w. Installed sha256 before dst src id w.files)
          (λ e. Unchanged)
  unfolding rename
  rename_ok out u =
      Ensures-bind call _ (Ensures-weaken _ (λ a w h. h) (λ e w h. h.kept) (call_files (Ready out)))
        λ v. record { at = λ w h. move_ok out (w.files (dst ++ partial_suffix)) w refl h }

  as_verified_ok :
      (P : World → Type 0) (r : Result Error Text) (w : World)
      → Post (λ got. P) (λ e. Unchanged) r w
      → Post (λ got. P) (λ e. Unchanged) (as_verified r w).0 (as_verified r w).1
  as_verified_ok P (ok got) w h = h
  as_verified_ok P (err e) w h = h

  pub finish_ok :
      (u : List ℕ)
      → Ensures Unchanged
          (finish sha256 src dst (length src.content) id)
          (λ u w. Installed sha256 before dst src id w.files)
          (λ e. Unchanged)
  unfolding finish
  finish_ok u = Ensures-bind call _ (Keeps-Ensures (call-Keeps before _)) λ v.
      Ensures-bind (λ w. found (w.files (dst ++ partial_suffix)) w) _
        (record { at = λ w h. found_kept (w.files (dst ++ partial_suffix)) w h })
        λ out.
          Ensures-bind
            (λ w.
              as_verified (verify sha256 out (length src.content) id w).0
                (verify sha256 out (length src.content) id w).1)
            _
            (record {
              at = λ w h.
                  as_verified_ok (λ w. Unchanged w × Matches sha256 (length src.content) id out)
                    (verify sha256 out (length src.content) id w).0
                    (verify sha256 out (length src.content) id w).1
                    ((verify_ok sha256 before dst out (length src.content) id).at w h);
            })
            λ got. Ensures-bind _ _ (change_file-Ready out got) λ u.
              Ensures-bind call _
                (Ensures-weaken _ (λ a w h. h) (λ e w h. h.kept)
                  (call_files (Ready (record out { mod_time = src.mod_time }))))
                (rename_ok (record out { mod_time = src.mod_time }))
