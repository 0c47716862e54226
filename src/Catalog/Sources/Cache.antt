-- ===== src/Catalog/Sources/Cache.antt =====
-- The cache of source files in catalog/catalog.go answers for an unchanged file only.
use mediamanager.Base.{
  ℕ, ◌≡◌, ◌&&◌, none, some, arith, if◌then◌else◌, Text, ◌==◌, ℕ_eq, Text_eq, Pair_eq, ok,
}
use mediamanager.Clock.{Time, equal}
use mediamanager.Table.{find-put}
use mediamanager.Catalog.{LocationKind_eq, CopyState_eq, Role_eq, SourceFile, Db, source_file_key}
use mediamanager.Catalog.Sources.{put_source_file, lookup_source_file}

-- After PutSourceFile, LookupSourceFile at that path returns the asset exactly for the recorded
-- size and time, and answers at every other path as before.
pub lookup_source_file-put_source_file :
    (db : Db) (f : SourceFile) {db' : Db} (l : ℕ) (path : Text) (size : ℕ) (t : Time)
    → put_source_file db f ≡ ok db'
    → lookup_source_file db' l path size t ≡ (
        if f.location_id == l && f.path == path
        then (if f.size == size && equal f.mod_time t then some f.asset_id else none)
        else lookup_source_file db l path size t)
unfolding lookup_source_file put_source_file
lookup_source_file-put_source_file db f {db'} l path size t h =
    ground (arith, find-put source_file_key (l, path) f db.source_files)
