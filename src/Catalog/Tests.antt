-- ===== src/Catalog/Tests.antt =====
-- The catalog at concrete rows, and the theorems on catalog/catalog.go applied to them.
use mediamanager.Base.{
  ◌≡◌, refl, ◌≢◌, ◌↔◌, false, ◌&&◌, none, some, [], ◌∷◌, arith, if◌then◌else◌, In, Text, codes,
  text_eq, ℕ_eq, Text_eq, Pair_eq, ◌==◌, err, ok,
}
use mediamanager.Base.Int.{pos, ℤ_eq}
use mediamanager.Clock.{zero_time, equal}
use mediamanager.Media.{video, kind_eq, Kind_eq}
use mediamanager.Catalog.{
  spool, nas, LocationKind_eq, Location, Asset, complete, CopyState_eq, Copy, Role_eq, SourceFile,
  Db, empty, not_found, path_taken,
}
use mediamanager.Catalog.Locations.{next_id, upserted, upsert_location}
use mediamanager.Catalog.Assets.{asset, asset_by_path, put_new, put_asset}
use mediamanager.Catalog.Assets.Recorded.{asset-put_asset, put_asset-path_taken}
use mediamanager.Catalog.Copies.{references, put_copy, copies}
use mediamanager.Catalog.Sources.{put_source_file, lookup_source_file}
use mediamanager.Catalog.Sources.Cache.{lookup_source_file-put_source_file}
use mediamanager.Catalog.Worklists.{needs_archive, flushable}
use mediamanager.Catalog.Worklists.Exact.{
  CompleteCopy, CompleteOnNas, CompleteAt, needs_archive_iff, flushable_iff,
}
use mediamanager.Catalog.Invariant.{IsWellFormed}
use mediamanager.Catalog.Invariant.CopyRows.{put_copy-IsWellFormed}
use mediamanager.Catalog.Invariant.Reachable.{
  location_upserted, asset_put, copy_put, Reachable, start, extended, Reachable-IsWellFormed,
}

abbrev disk : Location
disk = record {
  id = 1;
  kind = spool;
  name = codes "disk";
  volume_uuid = [];
  label = [];
  priority = pos 0;
  root = codes "/spool";
}

abbrev vault : Location
vault = record disk { id = 2; kind = nas; name = codes "vault" }

abbrev clip : Asset
clip = record {
  id = codes "x";
  scheme = codes "sparse1";
  kind = video;
  size = 7;
  full_sha256 = [];
  orig_name = codes "c.mov";
  capture_time = zero_time;
  rel_path = codes "v/c.mov";
  project = [];
  pinned = false;
}

abbrev rival : Asset
rival = record clip { id = codes "y" }

abbrev on_disk : Copy
on_disk = record {
  asset_id = codes "x";
  location_id = 1;
  rel_path = codes "v/c.mov";
  state = complete;
  verified_at = zero_time;
  full_sha256 = [];
}

abbrev with_disk : Db
with_disk = (upsert_location empty disk).0

abbrev with_vault : Db
with_vault = (upsert_location with_disk vault).0

abbrev with_clip : Db
with_clip = record empty { locations = disk ∷ vault ∷ []; assets = clip ∷ [] }

abbrev with_copy : Db
with_copy = record with_clip { copies = on_disk ∷ [] }

abbrev archived : Db
archived = record with_clip { copies = on_disk ∷ record on_disk { location_id = 2 } ∷ [] }

clip_put : put_asset with_vault clip ≡ ok with_clip
unfolding put_asset mediamanager.Base.text_eq mediamanager.Media.kind_eq mediamanager.Table.find
    upsert_location mediamanager.Catalog.Assets.put_new mediamanager.Table.put
    mediamanager.Catalog.Locations.upserted mediamanager.Catalog.Locations.next_id
clip_put = refl

copy_put_ok : put_copy with_clip on_disk ≡ ok with_copy
unfolding put_copy mediamanager.Catalog.Copies.references mediamanager.Base.text_eq
    mediamanager.Table.put
copy_put_ok = refl

second_put : put_copy with_copy (record on_disk { location_id = 2 }) ≡ ok archived
unfolding put_copy mediamanager.Catalog.Copies.references mediamanager.Base.text_eq
    mediamanager.Table.put
second_put = refl

made : Reachable with_copy
made =
    extended with_clip with_copy
      (extended with_vault with_clip
        (extended with_disk with_vault
          (extended empty with_disk start (location_upserted empty disk))
          (location_upserted with_disk vault))
        (asset_put with_vault with_clip clip clip_put))
      (copy_put with_clip with_copy on_disk copy_put_ok)

Reachable-IsWellFormed_example : IsWellFormed with_copy
Reachable-IsWellFormed_example = Reachable-IsWellFormed with_copy made

archived-IsWellFormed : IsWellFormed archived
archived-IsWellFormed =
    put_copy-IsWellFormed with_copy (record on_disk { location_id = 2 })
      (Reachable-IsWellFormed with_copy made) second_put

asset-put_asset_example :
    (have : Asset) × (asset with_clip clip.id ≡ ok have)
    × (have.rel_path ≡ clip.rel_path)
    × (have.kind ≡ clip.kind)
    × ((j : Text) → j ≢ clip.id → asset with_clip j ≡ asset with_vault j)
asset-put_asset_example = asset-put_asset with_vault clip clip_put

put_asset-path_taken_example : (put_asset with_clip rival ≡ err path_taken) ↔ (
    (asset with_clip rival.id ≡ err not_found)
    × ((other : Asset) × (asset_by_path with_clip rival.kind rival.rel_path ≡ ok other)))
put_asset-path_taken_example =
    put_asset-path_taken with_clip rival (λ e. ground (arith, e)) (λ e. ground (arith, e))
      (λ e. ground (arith, e))

needs_archive_iff_example :
    In clip (needs_archive archived)
    ↔ (In clip archived.assets × CompleteCopy archived clip.id × (¬ CompleteOnNas archived clip.id))
needs_archive_iff_example = needs_archive_iff archived clip archived-IsWellFormed

flushable_iff_example : In clip (flushable archived 1) ↔ (
    In clip archived.assets
    × (clip.pinned ≡ false)
    × CompleteAt archived clip.id 1
    × CompleteOnNas archived clip.id)
flushable_iff_example = flushable_iff archived clip archived-IsWellFormed 1

abbrev seen : SourceFile
seen = record {
  location_id = 1;
  path = codes "c.mov";
  size = 7;
  mod_time = zero_time;
  asset_id = codes "x";
}

abbrev cached : Db
cached = record with_clip { source_files = seen ∷ [] }

seen_put : put_source_file with_clip seen ≡ ok cached
unfolding put_source_file mediamanager.Catalog.Copies.references mediamanager.Base.text_eq
    mediamanager.Table.put
seen_put = refl

lookup_source_file-put_source_file_example :
    lookup_source_file cached 1 (codes "c.mov") 8 zero_time ≡ (
      if seen.location_id == 1 && seen.path == codes "c.mov"
      then (if seen.size == 8 && equal seen.mod_time zero_time then some seen.asset_id else none)
      else lookup_source_file with_clip 1 (codes "c.mov") 8 zero_time)
lookup_source_file-put_source_file_example =
    lookup_source_file-put_source_file with_clip seen 1 (codes "c.mov") 8 zero_time seen_put
