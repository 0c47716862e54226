-- ===== src/Copyfile/Outcome.antt =====
-- How Copy of copyfile/copyfile.go ends, whatever call fails and whenever it is cancelled.

use mediamanager.Base.{
  ℕ, ◌≡◌, refl, sym, ap, ◌∙◌, ◌≢◌, Bool, true, false, not, Option, none, some, List, ◌++◌, arith,
  length, length-append, Text, text_eq_iff, ℕ_eq, Text_eq, Pair_eq, ◌==◌, Result, err, ok,
}
use mediamanager.Base.Exec.Keeps.{
  Post, Ensures, Keeps-Ensures, Ensures-bind, Ensures-weaken, Ensures-if,
}
use mediamanager.Files.{
  File, World, Error, not_exist, io_failure, cancelled, unexpected_eof, exists, source_mismatch,
  verify_failed, fault_of, tail_of, faulted, found, call, open_file,
}
use mediamanager.Identity.{sparse}
use mediamanager.Copyfile.{partial_suffix, judge, as_complete, verify, completed_from, completed}
use mediamanager.Copyfile.Keeps.{Kept, call-Keeps}

-- `f` has the size of the source and the sparse identity `id`.
pub record Matches (sha256 : List ℕ → List ℕ) (size : ℕ) (id : Text) (f : File) : Type 0 where
  pub same_size : length f.content ≡ size
  pub same_id : sparse sha256 f.content size ≡ ok id

-- The partial file has become dst: it matches, it has the time of the source, and no other file
-- has changed.
pub record Installed (sha256 : List ℕ → List ℕ) (before : Text → Option File) (dst : Text)
    (src : File) (id : Text) (files : Text → Option File) : Type 0 where
  pub final : File
  pub here : files dst ≡ some final
  pub final_matches : Matches sha256 (length src.content) id final
  pub same_time : final.mod_time ≡ src.mod_time
  pub no_partial : files (dst ++ partial_suffix) ≡ none
  pub others : (p : Text) → p ≢ dst → p ≢ (dst ++ partial_suffix) → files p ≡ before p

pub partial_ne : (dst : Text) → dst ≢ (dst ++ partial_suffix)
partial_ne dst q = omega (arith, length-append dst partial_suffix, ap length q)

faulted_files :
    (Q : (Text → Option File) → Type 0) (o : Option ℕ) (w : World)
    → Q w.files
    → Post (λ u w. Q w.files) (λ e w. Q w.files) (faulted o w).0 (faulted o w).1
faulted_files Q none w h = h
faulted_files Q (some k) w h = h

-- A call leaves what is known of the files.
pub call_files :
    (Q : (Text → Option File) → Type 0)
    → Ensures (λ w. Q w.files) call (λ u w. Q w.files) (λ e w. Q w.files)
unfolding call
call_files Q = record {
  at = λ w h. faulted_files Q (fault_of w.faults) (record w { faults = tail_of w.faults }) h;
}

module _ (sha256 : List ℕ → List ℕ) (before : Text → Option File) (dst : Text) where
  abbrev Old : World → Type 0
  Old w = Kept before (dst ++ partial_suffix) w

  abbrev Missed : Text → Error → World → Type 0
  Missed path e w = Old w × (e ≡ not_exist → before path ≡ none)

  faulted_ok :
      (path : Text) (o : Option ℕ) (w : World)
      → Old w
      → Post (λ u. Old) (Missed path) (faulted o w).0 (faulted o w).1
  faulted_ok path none w h = h
  faulted_ok path (some k) w h = (h, λ e. ground arith)

  call_ok : (path : Text) → Ensures Old call (λ u. Old) (Missed path)
  unfolding call
  call_ok path = record {
    at = λ w h. faulted_ok path (fault_of w.faults) (record w { faults = tail_of w.faults }) h;
  }

  found_ok :
      (path : Text) (o : Option File) (w : World)
      → path ≢ (dst ++ partial_suffix)
      → Old w
      → w.files path ≡ o
      → Post (λ f w. Old w × before path ≡ some f) (Missed path) (found o w).0 (found o w).1
  found_ok path none w n h q = (h, λ e. sym (h path n) ∙ q)
  found_ok path (some f) w n h q = (h, sym (h path n) ∙ q)

  pub open_ok :
      (path : Text)
      → path ≢ (dst ++ partial_suffix)
      → Ensures Old (open_file path) (λ f w. Old w × before path ≡ some f) (Missed path)
  unfolding open_file
  open_ok path n =
      Ensures-bind call _ (call_ok path)
        λ u. record { at = λ w h. found_ok path (w.files path) w n h refl }

  pub judge_ok :
      (content : List ℕ) (size : ℕ) (want : Text) (r : Result _ Text)
      → sparse sha256 content size ≡ r
      → Ensures Old
          (judge want r)
          (λ got w. Old w × sparse sha256 content size ≡ ok want)
          (λ e. Old)
  judge_ok content size want (ok got) q =
      Ensures-if (got == want) _ _
        (λ t. record { at = λ w h. (h, ground (arith, q, t, text_eq_iff got want)) })
        λ t. record { at = λ w h. h }
  judge_ok content size want (err e) q = record { at = λ w h. h }

  pub verify_ok :
      (f : File) (size : ℕ) (want : Text)
      → Ensures Old
          (verify sha256 f size want)
          (λ got w. Old w × Matches sha256 size want f)
          (λ e. Old)
  unfolding verify
  verify_ok f size want = Ensures-bind call _ (Keeps-Ensures (call-Keeps before _)) λ u.
      Ensures-if (not (length f.content == size)) _ _ (λ t. record { at = λ w h. h })
        λ t. Ensures-bind call _ (Keeps-Ensures (call-Keeps before _)) λ v.
          Ensures-weaken _
            (λ got w h. (h.0, record { same_size = ground (arith, t); same_id = h.1 })) (λ e w h. h)
            (judge_ok f.content size want (sparse sha256 f.content size) refl)

  -- What the answer of `completed` tells of dst.
  abbrev pub Answer : ℕ → Text → Bool → Type 0
  Answer size want done =
      (done ≡ false → before dst ≡ none)
      × (done ≡ true → (g : File) × before dst ≡ some g × Matches sha256 size want g)

  complete_ok :
      (f : File) (size : ℕ) (want : Text) (r : Result Error Text) (w : World)
      → before dst ≡ some f
      → Post (λ got w. Old w × Matches sha256 size want f) (λ e. Old) r w
      → Post
          (λ done w. Old w × Answer size want done)
          (λ e. Old)
          (as_complete r w).0
          (as_complete r w).1
  complete_ok f size want (ok got) w q h = (h.0, ((λ t. ground arith), λ t. (f, q, h.1)))
  complete_ok f size want (err e) w q h = h

  completed_from_ok :
      (size : ℕ) (want : Text) (r : Result Error File) (w : World)
      → Post (λ f w. Old w × before dst ≡ some f) (Missed dst) r w
      → Post
          (λ done w. Old w × Answer size want done)
          (λ e. Old)
          (completed_from sha256 size want r w).0
          (completed_from sha256 size want r w).1
  completed_from_ok size want (ok f) w h =
      complete_ok f size want (verify sha256 f size want w).0 (verify sha256 f size want w).1 h.1
        ((verify_ok f size want).at w h.0)
  completed_from_ok size want (err not_exist) w h = (h.0, ((λ t. h.1 refl), λ t. ground arith))
  completed_from_ok size want (err io_failure) w h = h.0
  completed_from_ok size want (err cancelled) w h = h.0
  completed_from_ok size want (err unexpected_eof) w h = h.0
  completed_from_ok size want (err exists) w h = h.0
  completed_from_ok size want (err source_mismatch) w h = h.0
  completed_from_ok size want (err verify_failed) w h = h.0

  pub completed_ok :
      (size : ℕ) (want : Text)
      → Ensures Old
          (completed sha256 dst size want)
          (λ done w. Old w × Answer size want done)
          (λ e. Old)
  unfolding completed
  completed_ok size want = record {
    at = λ w h.
        completed_from_ok size want (open_file dst w).0 (open_file dst w).1
          ((open_ok dst (partial_ne dst)).at w h);
  }
