-- ===== src/Copyfile/Fresh.antt =====
-- A copy of copyfile/copyfile.go that starts afresh, when nothing fails.

use mediamanager.Base.{
  ℕ, ◌-◌, ◌≤◌, ◌≡◌, refl, sym, ◌∙◌, ◌≢◌, ◌⊎◌, Bool, false, ◌&&◌, not, Option, none, some, List, [],
  ◌++◌, arith, length, Text, text_eq_iff, ℕ_eq, Text_eq, Pair_eq, ◌==◌, Result, ok,
}
use mediamanager.Files.{File, World, Error, update, call, open_file, change_file}
use mediamanager.Identity.{sparse, full}
use mediamanager.Copyfile.Keeps.{update_ne, update_eq}
use mediamanager.Copyfile.Outcome.{partial_ne}
use mediamanager.Copyfile.Stream.{calm, stream_full}
use mediamanager.Copyfile.{
  partial_suffix, Options, Copied, with_defaults, tail_matches, truncate, resume_point, create,
  rename, verify, completed, finish, copy, zero_time,
}

module _ (sha256 : List ℕ → List ℕ) where
  completed-absent :
      (files : Text → Option File) (dst : Text) (size : ℕ) (want : Text)
      → files dst ≡ none
      → completed sha256 dst size want (calm files) ≡ (ok false, calm files)
  unfolding completed open_file call
  completed-absent files dst size want q = rw (q, open_file) refl

  verify-calm :
      (files : Text → Option File) (f : File) (want : Text)
      → sparse sha256 f.content (length f.content) ≡ ok want
      → verify sha256 f (length f.content) want (calm files) ≡ (ok want, calm files)
  unfolding verify call
  verify-calm files f want q = rw (q, verify) (ground (arith, text_eq_iff want want))

  finish-calm :
      (files : Text → Option File) (in_file out : File) (dst id : Text)
      → files (dst ++ partial_suffix) ≡ some (record out { content = in_file.content })
      → sparse sha256 in_file.content (length in_file.content) ≡ ok id
      → finish sha256 in_file dst (length in_file.content) id (calm files) ≡ (
        ok tt,
        calm (
            update
              (update
                (update files (dst ++ partial_suffix) (some in_file))
                (dst ++ partial_suffix)
                none)
              dst
              (some in_file)),
      )
  unfolding finish call change_file rename
  finish-calm files in_file out dst id q s =
      rw
        (
          q,
          verify-calm files (record out { content = in_file.content }) id s,
          update_eq files (dst ++ partial_suffix) (some in_file),
        )
        refl

resume-fresh :
    (files : Text → Option File) (in_file g : File) (path : Text) (size : ℕ) (b : Bool)
    → files path ≡ some g
    → g.content ≡ []
    → resume_point in_file path size b (calm files)
      ≡ (ok (0, []), calm (update files path (some g)))
unfolding resume_point open_file tail_matches call change_file truncate
resume-fresh files in_file g path size b q c = rw (q, c, open_file) refl

create-fresh :
    (files : Text → Option File) (path : Text)
    → files path ≡ none
    → create path (calm files)
      ≡ (ok tt, calm (update files path (some (record { content = []; mod_time = zero_time }))))
unfolding create call
create-fresh files path q = rw q refl

room : (o : Options) → 1 ≤ (with_defaults o).buffer_size
unfolding with_defaults
room o = ground arith

not_refused :
    (o : Options) (id : Text)
    → (o.expect_id ≡ []) ⊎ (o.expect_id ≡ id)
    → (not ((with_defaults o).expect_id == []) && not (id == (with_defaults o).expect_id)) ≡ false
unfolding with_defaults
not_refused o id e = ground (arith, text_eq_iff o.expect_id [], text_eq_iff id o.expect_id)

-- The copy is there, equal to the source to the byte and with its time, and nothing else has changed.
pub record Copies (sha256 : List ℕ → List ℕ) (files : Text → Option File) (dst id : Text)
    (in_file : File) (r : Result Error Copied × World) : Type 0 where
  pub after : Text → Option File
  pub ends : r ≡ (
    ok (record {
      size = length in_file.content;
      id = id;
      full_sha256 = full sha256 in_file.content;
      resumed = 0;
      already_complete = false;
    }),
    calm after,
  )
  pub here : after dst ≡ some in_file
  pub no_partial : after (dst ++ partial_suffix) ≡ none
  pub others : (p : Text) → p ≢ dst → p ≢ (dst ++ partial_suffix) → after p ≡ files p

module _ (sha256 : List ℕ → List ℕ) where
  -- When no call fails and nobody cancels, a copy of a file to a path that is absent, with no
  -- partial file there and with no other identity expected, returns with the size, the identity
  -- and the full hash of the source, and leaves at that path the very file that the source is,
  -- no partial file, and every other file as it was.
  pub copy_fresh :
      (files : Text → Option File) (src dst id : Text) (o : Options) (in_file : File)
      → files src ≡ some in_file
      → files dst ≡ none
      → files (dst ++ partial_suffix) ≡ none
      → sparse sha256 in_file.content (length in_file.content) ≡ ok id
      → (o.expect_id ≡ []) ⊎ (o.expect_id ≡ id)
      → Copies sha256 files dst id in_file (copy sha256 src dst o (calm files))
  unfolding copy open_file call
  copy_fresh files src dst id o in_file q n m s e =
      let partial = dst ++ partial_suffix in
      let blank : File = record { content = []; mod_time = zero_time } in
      let made = update files partial (some blank) in
      let cut = update made partial (some blank) in
      let ran =
        stream_full in_file.content partial (with_defaults o).buffer_size (room o)
          (length in_file.content - 0) cut blank 0 [] (update_eq made partial (some blank)) refl
          (omega arith) in
      let expected : (not ((with_defaults o).expect_id == [])
            && not (id == (with_defaults o).expect_id))
          ≡ false =
        not_refused o id e in
      record {
        after =
            update (update (update ran.after partial (some in_file)) partial none) dst
              (some in_file);
        ends =
            rw
              (
                q,
                s,
                expected,
                completed-absent sha256 files dst (length in_file.content) id n,
                create-fresh files partial m,
                resume-fresh made in_file blank partial (length in_file.content)
                    (with_defaults o).hash_resumed_prefix (update_eq files partial (some blank))
                    refl,
                ran.ends,
                finish-calm sha256 ran.after in_file blank dst id ran.whole s,
              )
              refl;
        here =
            update_eq (update (update ran.after partial (some in_file)) partial none) dst
              (some in_file);
        no_partial =
            update_ne (update (update ran.after partial (some in_file)) partial none) dst partial
              (some in_file) (λ z. partial_ne dst (sym z))
            ∙ update_eq (update ran.after partial (some in_file)) partial none;
        others = λ p x y.
            update_ne (update (update ran.after partial (some in_file)) partial none) dst p
              (some in_file) x
            ∙ update_ne (update ran.after partial (some in_file)) partial p none y
            ∙ update_ne ran.after partial p (some in_file) y
            ∙ ran.others p y
            ∙ update_ne made partial p (some blank) y
            ∙ update_ne files partial p (some blank) y;
      }
