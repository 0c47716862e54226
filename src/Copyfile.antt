-- ===== src/Copyfile.antt =====
-- copyfile/copyfile.go: the one place that moves bytes. A step is an action on the files that may
-- fail at every call. The callback Progress has no result and is left out, and so is syncDir, whose
-- failures the code ignores. The source is the file that was opened: nobody writes it meanwhile.
pub mod Keeps
pub mod Outcome
pub mod Finish
pub mod Safe
pub mod Stream
pub mod Fresh
pub mod Tests
use mediamanager.Clock.{zero_time}
use mediamanager.Base.Exec.{pure, fail, ◌>>=◌, ◌>>◌}
use mediamanager.Base.{
  ℕ, zero, suc, ◌+◌, ◌-◌, ◌*◌, ◌^◌, min, Bool, true, false, ◌&&◌, ◌||◌, not, Option, none, some,
  List, [], ◌++◌, ltb, if◌then◌else◌, length, take, drop, Text, codes, text_eq, ℕ_eq, Text_eq,
  Pair_eq, ◌==◌, Result, err, ok,
}
use mediamanager.Files.{
  File, Error, not_exist, io_failure, exists, source_mismatch, verify_failed, Os, update, found,
  call, open_file, change_file, write_at, check_context,
}
use mediamanager.Identity.{chunk, sparse, full}

-- PartialSuffix
abbrev pub partial_suffix : Text
partial_suffix = codes ".partial"

-- Options
pub record Options : Type 0 where
  pub expect_id : Text
  pub buffer_size : ℕ
  pub hash_resumed_prefix : Bool

-- Result
pub record Copied : Type 0 where
  pub size : ℕ
  pub id : Text
  pub full_sha256 : Text
  pub resumed : ℕ
  pub already_complete : Bool

-- Options.withDefaults
unfoldable pub with_defaults : Options → Options
with_defaults o = if o.buffer_size == 0 then record o { buffer_size = 4 * 2 ^ 20 } else o

-- The last bytes of the first `n`, at most a chunk of them.
unfoldable pub tail_bytes : List ℕ → ℕ → List ℕ
tail_bytes content n = let l = min n chunk in take l (drop (n - l) content)

-- tailMatches: an unreadable tail does not match.
unfoldable pub tail_matches : File → File → ℕ → Os Bool
unfolding tail_bytes
tail_matches in_file out n w =
    let r = call w in
    elim r.0 [
      | ok u ↦ (ok (text_eq (tail_bytes out.content n) (tail_bytes in_file.content n)), r.1)
      | err e ↦ (ok false, r.1)
    ]

-- Truncate(0)
unfoldable pub truncate : Text → File → Os Unit
truncate path f = change_file path (some (record f { content = [] }))

-- resumePoint: how much of an existing partial to keep, and the kept bytes if they are to be hashed.
unfoldable pub resume_point : File → Text → ℕ → Bool → Os (ℕ × List ℕ)
unfolding truncate
resume_point in_file path size hash_prefix = do
  out ← open_file path
  let n = length out.content
  matches ← if n == 0 || ltb size n then pure false else tail_matches in_file out n
  if not matches
      then (do truncate path out; pure (0, []))
      else if hash_prefix
      then (do call; pure (n, out.content))
      else pure (n, [])

-- stream: the rounds of the copy loop, after its two seeks, which `copy` makes; each moves at most a buffer, and at least one byte. The
-- bytes that went through are returned for the hash. `fuel` counts rounds, and is given as the
-- number of bytes that are left.
unfoldable pub stream : List ℕ → Text → ℕ → ℕ → ℕ → List ℕ → Os (List ℕ)
stream content path buffer zero copied hashed = pure hashed
stream content path buffer (suc fuel) copied hashed =
    let want = min buffer (length content - copied) in
    let bytes = take want (drop copied content) in
    let more = stream content path buffer fuel (copied + want) (hashed ++ bytes) in
    if ltb copied (length content)
    then (do check_context; call; write_at path copied bytes; more)
    else pure hashed

-- The end of verify: what identity.Sparse gave against the identity that is wanted.
abbrev pub judge : {X : Type 0} → Text → Result X Text → Os Text
judge want (ok got) = if got == want then pure got else fail verify_failed
judge want (err e) = fail io_failure

abbrev pub identified : {X : Type 0} → Result X Text → Os Text
identified (ok id) = pure id
identified (err e) = fail io_failure

-- A dst that does not verify is ErrExists.
abbrev pub as_complete : Result Error Text → Os Bool
as_complete (ok id) = pure true
as_complete (err e) = fail exists

-- OpenFile with O_CREATE: an absent file is made empty, a present one is left.
unfoldable pub create : Text → Os Unit
create path = do
  call
  λ w. elim (w.files path) [
    | some f ↦ (ok tt, w)
    | none ↦ (
      ok tt,
      record w {
        files = update w.files path (some (record { content = []; mod_time = zero_time }));
      },
    )
  ]

abbrev pub moved : Text → Text → Option File → Os Unit
moved from to none w = (err not_exist, w)
moved from to (some f) w =
    (ok tt, record w { files = update (update w.files from none) to (some f) })

-- Rename: the old name goes away, and the new one has its file.
unfoldable pub rename : Text → Text → Os Unit
rename from to = do call; (λ w. moved from to (w.files from) w)

-- A partial file that does not verify is ErrVerify.
abbrev pub as_verified : Result Error Text → Os Text
as_verified (ok id) = pure id
as_verified (err e) = fail verify_failed

module _ (sha256 : List ℕ → List ℕ) where
  -- verify: size and sparse identity, read from the file.
  unfoldable pub verify : File → ℕ → Text → Os Text
  verify f size want = do
    call
    if not (length f.content == size)
        then fail verify_failed
        else (do call; judge want (sparse sha256 f.content size))

  abbrev pub completed_from : ℕ → Text → Result Error File → Os Bool
  completed_from size want (err not_exist) w = (ok false, w)
  completed_from size want (err e) w = (err e, w)
  completed_from size want (ok f) w = as_complete (verify f size want w).0 (verify f size want w).1

  -- completed: whether dst is there as a complete copy.
  unfoldable pub completed : Text → ℕ → Text → Os Bool
  completed dst size want w = completed_from size want (open_file dst w).0 (open_file dst w).1

  -- What follows the copy loop: sync, verify the partial, set its time, close, rename into place.
  unfoldable pub finish : File → Text → ℕ → Text → Os Unit
  finish in_file dst size src_id = do
    let partial = dst ++ partial_suffix
    call
    out ← (λ w. found (w.files partial) w)
    (λ w. as_verified (verify out size src_id w).0 (verify out size src_id w).1)
    change_file partial (some (record out { mod_time = in_file.mod_time }))
    call
    rename partial dst

  -- Copy
  unfoldable pub copy : Text → Text → Options → Os Copied
  copy src dst options = do
    let o = with_defaults options
    let partial = dst ++ partial_suffix
    in_file ← open_file src
    let size = length in_file.content
    call
    src_id ← identified (sparse sha256 in_file.content size)
    if not (o.expect_id == []) && not (src_id == o.expect_id) then fail source_mismatch else (do
      done ← completed dst size src_id
      if done
          then pure (record {
            size = size;
            id = src_id;
            full_sha256 = [];
            resumed = 0;
            already_complete = true;
          })
          else (do
            call
            create partial
            (resumed, prefix) ← resume_point in_file partial size o.hash_resumed_prefix
            call
            call
            hashed ← stream in_file.content partial o.buffer_size (size - resumed) resumed prefix
            finish in_file dst size src_id
            pure (record {
              size = size;
              id = src_id;
              full_sha256 =
                  if resumed == 0 || o.hash_resumed_prefix then full sha256 hashed else [];
              resumed = resumed;
              already_complete = false;
            })))
