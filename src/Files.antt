-- ===== src/Files.antt =====
-- The files of the storage tiers, as Go's package `os` shows them: a file is its bytes and its
-- modification time. Directories are not kept: MkdirAll succeeds or fails and leaves the files.
-- Any call may fail: the world holds, for each call to come, whether it does. Language library and
-- operating system, not code of the repository.
use mediamanager.Base.{
  ℕ, ◌+◌, Bool, Option, none, some, List, [], ◌∷◌, ◌++◌, if◌then◌else◌, length, take, drop, any,
  Text, ◌==◌, ℕ_eq, Text_eq, Pair_eq, ok, err,
}
use mediamanager.Base.Exec.{Exec, pure, fail, ◌>>◌}
use mediamanager.Clock.{Time}

pub record File : Type 0 where
  pub content : List ℕ
  pub mod_time : Time

-- What the operating system and the caller decide. An entry of `faults` is for one call: `none` lets
-- it succeed, and `some k` makes it fail, a write after k bytes. Beyond the entries all succeeds.
-- An entry of `cancels` is for one question whether the context is done.
pub record World : Type 0 where
  pub files : Text → Option File
  pub faults : List (Option ℕ)
  pub cancels : List Bool

pub data Error : Type 0 where
  not_exist io_failure cancelled unexpected_eof : Error
  -- ErrExists, ErrSourceMismatch and ErrVerify of package copyfile
  exists source_mismatch verify_failed : Error

abbrev pub Os : Type 0 → Type 0
Os = Exec World Error

abbrev pub fault_of : List (Option ℕ) → Option ℕ
fault_of [] = none
fault_of (f ∷ fs) = f

abbrev pub tail_of {ℓ} : {A : Type ℓ} → List A → List A
tail_of [] = []
tail_of (x ∷ xs) = xs

abbrev pub update : (Text → Option File) → Text → Option File → Text → Option File
update files path f p = if path == p then f else files p

abbrev pub faulted : Option ℕ → Os Unit
faulted none = pure tt
faulted (some k) = fail io_failure

abbrev pub found : Option File → Os File
found none = fail not_exist
found (some f) = pure f

-- One call, which the world may fail.
unfoldable pub call : Os Unit
call w = let w' = record w { faults = tail_of w.faults } in faulted (fault_of w.faults) w'

-- os.Open and Stat
unfoldable pub open_file : Text → Os File
unfolding call
open_file path = do call; (λ w. found (w.files path) w)

-- A change of the files by one call that leaves them alone when it fails.
unfoldable pub change_file : Text → Option File → Os Unit
unfolding call
change_file path f = do call; (λ w. (ok tt, record w { files = update w.files path f }))

-- The content after a write of `bytes` at an offset.
unfoldable pub written : List ℕ → ℕ → List ℕ → List ℕ
written content off bytes = take off content ++ (bytes ++ drop (off + length bytes) content)

-- Write through an open file: a failing call may have written the first k bytes.
unfoldable pub write_at : Text → ℕ → List ℕ → Os Unit
unfolding written
write_at path off bytes w =
    let w' = record w { faults = tail_of w.faults } in
    elim (w.files path) [
      | none ↦ (err not_exist, w')
      | some f ↦
          let put = λ (b : List ℕ). record w' {
            files = update w.files path (some (record f { content = written f.content off b }));
          } in
          elim (fault_of w.faults) [
            | none ↦ (ok tt, put bytes)
            | some k ↦ (err io_failure, put (take k bytes))
          ]
    ]

-- ctx.Err
unfoldable pub check_context : Os Unit
check_context w =
    let w' = record w { cancels = tail_of w.cancels } in
    if any (λ b. b) (take 1 w.cancels) then (err cancelled, w') else (ok tt, w')
