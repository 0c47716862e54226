-- ===== src/Catalog/Sources.antt =====
-- catalog.go: the cache of source files and the record of imports.
pub mod Cache
use mediamanager.Base.{
  ℕ, ◌||◌, not, Option, none, some, List, [], ◌∷◌, if◌then◌else◌, take, drop, keep, any, Text,
  text_ltb, ◌==◌, ℕ_eq, Text_eq, Pair_eq, Result, ok, err,
}
use mediamanager.Base.Sorting.{sort}
use mediamanager.Clock.{Time, zero_time, equal}
use mediamanager.Table.{find, put, change}
use mediamanager.Catalog.{
  LocationKind_eq, CopyState_eq, Role_eq, SourceFile, Import, Db, Error, not_found, no_such_key,
  location_id_key, source_file_key, import_key,
}
use mediamanager.Catalog.Locations.{next_id}
use mediamanager.Catalog.Copies.{references}

-- PutSourceFile
unfoldable pub put_source_file : Db → SourceFile → Result Error Db
put_source_file db f =
    if references db f.asset_id f.location_id
    then ok (record db { source_files = put source_file_key f db.source_files })
    else err no_such_key

-- LookupSourceFile
unfoldable pub lookup_source_file : Db → ℕ → Text → ℕ → Time → Option Text
lookup_source_file db location_id path size mtime =
    elim (find source_file_key (location_id, path) db.source_files) [
      | none ↦ none
      | some f ↦
          if not (f.size == size) || not (equal f.mod_time mtime) then none else some f.asset_id
    ]

-- BeginImport
unfoldable pub begin_import : Db → ℕ → Time → Result Error (Db × ℕ)
begin_import db location_id now = elim (find location_id_key location_id db.locations) [
  | none ↦ err no_such_key
  | some l ↦
      let id = next_id import_key db.imports in
      ok (
        record db {
          imports =
              record {
                id = id;
                location_id = location_id;
                started_at = now;
                finished_at = zero_time;
                new = 0;
                skipped = 0;
                failed = 0;
              }
              ∷ db.imports;
        },
        id,
      )
]

-- FinishImport
unfoldable pub finish_import : Db → ℕ → ℕ → ℕ → ℕ → Time → Result Error Db
finish_import db id new skipped failed now = elim (find import_key id db.imports) [
  | none ↦ err not_found
  | some i ↦ ok (record db {
    imports =
        change import_key id
          (λ i. record i { finished_at = now; new = new; skipped = skipped; failed = failed })
          db.imports;
  })
]

-- Import
unfoldable pub import_of : Db → ℕ → Result Error Import
import_of db id = elim (find import_key id db.imports) [ none ↦ err not_found | some i ↦ ok i ]

-- GROUP BY asset_id on rows in path order: an asset stands where its first path does.
unfoldable pub first_of_each : List Text → List SourceFile → List Text
first_of_each seen [] = []
first_of_each seen (f ∷ fs) =
    let rest = first_of_each (f.asset_id ∷ seen) fs in
    if any (λ id. id == f.asset_id) seen then rest else f.asset_id ∷ rest

-- LIMIT ? OFFSET ?
unfoldable pub page {ℓ} : {A : Type ℓ} → ℕ → ℕ → List A → List A
page offset limit xs = take limit (drop offset xs)

-- SourceAssetIDs
unfoldable pub source_asset_ids : Db → ℕ → ℕ → ℕ → List Text
unfolding page
source_asset_ids db location_id offset limit = page offset limit (
    first_of_each [] (
      sort (λ f g. text_ltb f.path g.path)
        (keep (λ f. f.location_id == location_id) db.source_files)))
