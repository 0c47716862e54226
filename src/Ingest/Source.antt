-- ===== src/Ingest/Source.antt =====
-- ingest/source.go: how the files of a source become assets with permanent names. `read` gives the
-- bytes of a file, if it can be read, and `capture_time` when it was shot: package scan's
-- CaptureTime, whose second result is dropped by its caller.
pub mod Placed
pub mod Registered
mod Tests
use mediamanager.Base.Exec.{pure, fail, ◌>>=◌, ◌>>◌}
use mediamanager.Base.{
  ℕ, zero, suc, Bool, true, false, Option, none, some, [], if◌then◌else◌, Text, codes, ℕ_eq,
  Text_eq, Pair_eq, ◌==◌, Result, err, ok,
}
use mediamanager.Clock.{Time, zero_time}
use mediamanager.Media.{Kind_eq, uses_sparse_id}
use mediamanager.Identity
use mediamanager.Files
use mediamanager.Files.{Error, io_failure, Os, call, open_file}
use mediamanager.Naming.{date_path, with_suffix}
use mediamanager.Scan
use mediamanager.Scan.{File, name}
use mediamanager.Catalog.{
  LocationKind_eq, Location, Asset, CopyState, complete, CopyState_eq, Copy, Role_eq, SourceFile,
  not_found, path_taken,
}
use mediamanager.Catalog.Assets.{asset, put_asset}
use mediamanager.Catalog.Copies.{put_copy}
use mediamanager.Catalog.Sources.{put_source_file, lookup_source_file}
use mediamanager.Ingest.Store.{
  Failure, catalog_error, file_error, naming_error, no_free_name, Step, from_result, ask, query,
  on_files, statement,
}

-- How often `place` tries.
unfoldable pub attempts : ℕ
attempts = 100

-- The nth name that `place` tries.
unfoldable pub candidate : Text → ℕ → Text
candidate rel n = if n == 0 then rel else with_suffix rel n

-- errors.Is(err, ErrPathTaken)
abbrev pub is_path_taken : Failure → Bool
is_path_taken (catalog_error path_taken) = true
is_path_taken _ = false

abbrev pub or_next : Text → Step Text → Result Failure Unit → Step Text
or_next here next (ok u) = pure here
or_next here next (err e) = if is_path_taken e then next else fail e

-- The loop of place from its nth round on.
unfoldable pub place_from : Asset → Text → ℕ → ℕ → Step Text
unfolding statement candidate
place_from a rel n zero = fail no_free_name
place_from a rel n (suc rounds) =
    let next = place_from a rel (suc n) rounds in
    let here = candidate rel n in
    λ s.
      let r = statement (λ db. put_asset db (record a { rel_path = here })) s in
      or_next here next r.0 r.1

-- place
unfoldable pub place : Asset → Step Text
place a = do
  rel ← from_result naming_error (
      date_path (record {
        kind = a.kind;
        orig_name = a.orig_name;
        id = a.id;
        capture_time = a.capture_time;
      }))
  place_from a rel 0 attempts

-- Scheme of package identity
abbrev pub sparse_scheme : Text
sparse_scheme = codes "s1"

module _ (sha256 : Identity.Bytes → Identity.Bytes) (capture_time : File → Time) where
  abbrev pub sparse_or_fail : Result Identity.Error (Text × ℕ) → Step Text
  sparse_or_fail (ok r) = pure r.0
  sparse_or_fail (err e) = fail (file_error Files.io_failure)

  -- identity.FullFile: the whole file is read.
  unfoldable pub full_file : Text → Files.Os Text
  full_file path = do f ← open_file path; call; pure (Identity.full sha256 f.content)

  -- identity.SparseFile of a path
  unfoldable pub sparse_of : Text → Step Text
  unfolding on_files
  sparse_of path = do
    f ← on_files (open_file path)
    on_files call
    sparse_or_fail (Identity.sparse_file sha256 f.content)

  -- register, on a miss: the identity of the file and the row it would have.
  unfoldable pub identify : File → Step Asset
  unfolding on_files full_file sparse_of
  identify f = do
    id ← if uses_sparse_id f.kind then sparse_of f.abs else on_files (full_file f.abs)
    pure (record {
      id = id;
      scheme = if uses_sparse_id f.kind then sparse_scheme else codes "sha256";
      kind = f.kind;
      size = f.size;
      full_sha256 = if uses_sparse_id f.kind then [] else id;
      orig_name = Scan.name f;
      capture_time = zero_time;
      rel_path = [];
      project = [];
      pinned = false;
    })

  -- Same content seen before, or a new asset that gets its name.
  abbrev pub known_or_placed : File → Asset → Result Failure Asset → Step (Asset × Bool)
  known_or_placed f a (ok have) = pure (have, false)
  known_or_placed f a (err (catalog_error not_found)) = do
    let timed = record a { capture_time = capture_time f }
    rel ← place timed
    pure (record timed { rel_path = rel }, true)
  known_or_placed f a (err e) = fail e

  unfoldable pub find_or_place : File → Asset → Step (Asset × Bool)
  unfolding query
  find_or_place f a s = let r = query (λ db. asset db a.id) s in known_or_placed f a r.0 r.1

  abbrev pub source_row : Location → File → Asset → SourceFile
  source_row loc f a = record {
    location_id = loc.id;
    path = f.rel;
    size = f.size;
    mod_time = f.mod_time;
    asset_id = a.id;
  }

  abbrev pub copy_on : Text → ℕ → Text → CopyState → Copy
  copy_on id location_id rel state = record {
    asset_id = id;
    location_id = location_id;
    rel_path = rel;
    state = state;
    verified_at = zero_time;
    full_sha256 = [];
  }

  -- register, where the cache knows the file or does not
  abbrev pub registered : Location → File → Option Text → Step (Asset × Bool)
  registered loc f (some id) = do
    a ← query (λ db. asset db id)
    statement (λ db. put_copy db (copy_on a.id loc.id f.rel complete))
    pure (a, false)
  registered loc f none = do
    a ← identify f
    (a', is_new) ← find_or_place f a
    statement (λ db. put_copy db (copy_on a'.id loc.id f.rel complete))
    statement (λ db. put_source_file db (source_row loc f a'))
    pure (a', is_new)

  -- register
  unfoldable pub register : Location → File → Step (Asset × Bool)
  unfolding ask
  register loc f = do
    hit ← ask (λ db. lookup_source_file db loc.id f.rel f.size f.mod_time)
    registered loc f hit
