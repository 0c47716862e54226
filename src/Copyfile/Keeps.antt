-- ===== src/Copyfile/Keeps.antt =====
-- The steps of copyfile/copyfile.go before the rename touch the partial file only.

use mediamanager.Base.{
  ℕ, zero, suc, ◌≡◌, ap, ◌∙◌, ◌≢◌, Bool, false, ◌||◌, Option, some, List, [], arith, ltb,
  if◌then◌else◌, length, Text, text_eq_iff, ℕ_eq, Text_eq, Pair_eq, ◌==◌, Result, err, ok,
}
use mediamanager.Base.Exec.{pure, ◌>>=◌}
use mediamanager.Base.Exec.Keeps.{Keeps, Keeps-pure, Keeps-fail, Keeps-if, Keeps-bind, keeps_rules}
use mediamanager.Clock.{before}
use mediamanager.Files.{
  File, World, io_failure, verify_failed, update, call, open_file, change_file, write_at,
  check_context,
}
use mediamanager.Copyfile.{
  tail_matches, truncate, resume_point, stream, judge, create, verify, sparse,
}

-- Every file but the one at `partial` is as it was.
abbrev pub Kept : (Text → Option File) → Text → World → Type 0
Kept before partial w = (p : Text) → p ≢ partial → w.files p ≡ before p

files-call : (w : World) → (call w).1.files ≡ w.files
unfolding call
files-call w = ground arith

pub update_ne :
    (files : Text → Option File) (path p : Text) (f : Option File)
    → p ≢ path
    → update files path f p ≡ files p
update_ne files path p f n = ground (arith, text_eq_iff path p)

pub update_eq :
    (files : Text → Option File) (path : Text) (f : Option File) → update files path f path ≡ f
update_eq files path f = ground (arith, text_eq_iff path path)

module _ (before : Text → Option File) (partial : Text) where
  pub call-Keeps : Keeps (Kept before partial) call
  call-Keeps = record { at = λ w h p n. ap (λ f. f p) (files-call w) ∙ h p n }

  context-Keeps : Keeps (Kept before partial) check_context
  unfolding check_context
  context-Keeps = record { at = λ w h p n. ground (arith, h p n) }

  pub open_file-Keeps : (path : Text) → Keeps (Kept before partial) (open_file path)
  unfolding open_file
  open_file-Keeps path =
      Keeps-bind call _ call-Keeps λ u. record { at = λ w h p n. ground (arith, h p n) }

  change_file-Keeps : (f : Option File) → Keeps (Kept before partial) (change_file partial f)
  unfolding change_file
  change_file-Keeps f =
      Keeps-bind call _ call-Keeps
        λ u. record { at = λ w h p n. update_ne w.files partial p f n ∙ h p n }

  write_at-Keeps :
      (off : ℕ) (bytes : List ℕ) → Keeps (Kept before partial) (write_at partial off bytes)
  unfolding write_at
  write_at-Keeps off bytes = record { at = λ w h p n. ground (arith, h p n, text_eq_iff partial p) }

  pub create-Keeps : Keeps (Kept before partial) (create partial)
  unfolding create
  create-Keeps =
      Keeps-bind call _ call-Keeps
        λ u. record { at = λ w h p n. ground (arith, h p n, text_eq_iff partial p) }

  tail_matches-Keeps : (f g : File) (n : ℕ) → Keeps (Kept before partial) (tail_matches f g n)
  unfolding tail_matches
  tail_matches-Keeps f g n = record {
    at = λ w h p k. ground (arith, ap (λ (t : Text → Option File). t p) (files-call w), h p k);
  }

  truncate-Keeps : (f : File) → Keeps (Kept before partial) (truncate partial f)
  unfolding truncate
  truncate-Keeps f = change_file-Keeps (some (record f { content = [] }))

  ruleset partial_rules = (
    keeps_rules, call-Keeps, context-Keeps, open_file-Keeps, change_file-Keeps, write_at-Keeps,
    create-Keeps, tail_matches-Keeps, truncate-Keeps,
  )

  prefix-Keeps :
      (b : Bool) (f : File)
      → Keeps {A = ℕ × List ℕ} (Kept before partial) (
          if b
          then (call >>= λ u. pure (length f.content, f.content))
          else pure (length f.content, []))
  prefix-Keeps b f = search partial_rules

  pub resume_point-Keeps :
      (f : File) (size : ℕ) (b : Bool) → Keeps (Kept before partial) (resume_point f partial size b)
  unfolding resume_point
  resume_point-Keeps f size b = Keeps-bind (open_file partial) _ (open_file-Keeps partial) λ out.
      Keeps-bind _ _
        (Keeps-if (length out.content == 0 || ltb size (length out.content)) (pure false)
          (tail_matches f out (length out.content)) (Keeps-pure false) (tail_matches-Keeps f out _))
        λ m.
          Keeps-if _ _ _
            (Keeps-bind (truncate partial out) _ (truncate-Keeps out) λ u. Keeps-pure (0, []))
            (prefix-Keeps b out)

  pub stream-Keeps :
      (content : List ℕ) (buffer fuel copied : ℕ) (hashed : List ℕ)
      → Keeps (Kept before partial) (stream content partial buffer fuel copied hashed)
  unfolding stream
  stream-Keeps content buffer zero copied hashed = Keeps-pure hashed
  stream-Keeps content buffer (suc fuel) copied hashed =
      let rest = stream-Keeps content buffer fuel in search (partial_rules, rest) depth 8

  judge-Keeps :
      {X : Type 0} (want : Text) (r : Result X Text) → Keeps (Kept before partial) (judge want r)
  judge-Keeps want (ok got) = Keeps-if _ _ _ (Keeps-pure got) (Keeps-fail verify_failed)
  judge-Keeps want (err e) = Keeps-fail io_failure

  pub verify-Keeps :
      (sha256 : List ℕ → List ℕ) (f : File) (size : ℕ) (want : Text)
      → Keeps (Kept before partial) (verify sha256 f size want)
  unfolding verify
  verify-Keeps sha256 f size want = Keeps-bind call _ call-Keeps λ u.
      Keeps-if _ _ _ (Keeps-fail verify_failed)
        (Keeps-bind call _ call-Keeps λ v. judge-Keeps want (sparse sha256 f.content size))
