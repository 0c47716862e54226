-- ===== src/Catalog/Invariant/Reachable.antt =====
-- Every database that the statements of catalog/catalog.go make from the empty one.
use mediamanager.Base.{
  ℕ, ◌≡◌, refl, subst, inl, inr, Bool, List, arith, Bool-cases, Option-cases, Text, ℕ_eq, Text_eq,
  Pair_eq, ok,
}
use mediamanager.Clock.{Time}
use mediamanager.Table.{find, put, remove}
use mediamanager.Catalog.{
  LocationKind_eq, Location, Asset, CopyState, CopyState_eq, Copy, Role, Role_eq, Companion,
  SourceFile, Import, Db, empty, location_id_key, companion_key, source_file_key, import_key,
}
use mediamanager.Catalog.Locations.{upsert_location}
use mediamanager.Catalog.Assets.{
  put_asset, set_asset_content, set_full_sha256, set_project, set_pinned,
}
use mediamanager.Catalog.Copies.{references, put_copy, set_copy_state, delete_copy}
use mediamanager.Catalog.Companions.{put_companion, delete_companion}
use mediamanager.Catalog.Sources.{put_source_file, begin_import, finish_import}
use mediamanager.Catalog.Invariant.{IsWellFormed, empty-IsWellFormed, CopiesRefer-mono}
use mediamanager.Catalog.Invariant.AssetRows.{put_asset-IsWellFormed, update_asset-IsWellFormed}
use mediamanager.Catalog.Invariant.CopyRows.{
  put_copy-IsWellFormed, set_copy_state-IsWellFormed, delete_copy-IsWellFormed,
}
use mediamanager.Catalog.Invariant.LocationRows.{upsert_location-IsWellFormed}

-- One statement that succeeds.
pub data Step : Db → Db → Type 0 where
  location_upserted : (db : Db) (l : Location) → Step db (upsert_location db l).0
  asset_put : (db db' : Db) (a : Asset) → put_asset db a ≡ ok db' → Step db db'
  content_set :
      (db db' : Db) (id : Text) (size : ℕ) (sum : Text)
      → set_asset_content db id size sum ≡ ok db'
      → Step db db'
  hash_set : (db db' : Db) (id sum : Text) → set_full_sha256 db id sum ≡ ok db' → Step db db'
  project_set : (db db' : Db) (id project : Text) → set_project db id project ≡ ok db' → Step db db'
  pinned_set : (db db' : Db) (id : Text) (b : Bool) → set_pinned db id b ≡ ok db' → Step db db'
  copy_put : (db db' : Db) (c : Copy) → put_copy db c ≡ ok db' → Step db db'
  state_set :
      (db db' : Db) (id : Text) (l : ℕ) (s : CopyState) (now : Time)
      → set_copy_state db id l s now ≡ ok db'
      → Step db db'
  copy_deleted : (db db' : Db) (id : Text) (l : ℕ) → delete_copy db id l ≡ ok db' → Step db db'
  companion_put : (db db' : Db) (c : Companion) → put_companion db c ≡ ok db' → Step db db'
  companion_deleted :
      (db db' : Db) (id : Text) (l : ℕ) (r : Role) (ext : Text)
      → delete_companion db id l r ext ≡ ok db'
      → Step db db'
  source_put : (db db' : Db) (f : SourceFile) → put_source_file db f ≡ ok db' → Step db db'
  import_begun :
      (db db' : Db) (l n : ℕ) (now : Time) → begin_import db l now ≡ ok (db', n) → Step db db'
  import_finished :
      (db db' : Db) (n new skipped failed : ℕ) (now : Time)
      → finish_import db n new skipped failed now ≡ ok db'
      → Step db db'

pub data Reachable : Db → Type 0 where
  start : Reachable empty
  extended : (db db' : Db) → Reachable db → Step db db' → Reachable db'

-- The constraints do not speak of the other tables.
others-IsWellFormed :
    (db : Db) (cs : List Companion) (fs : List SourceFile) (is : List Import)
    → IsWellFormed db
    → IsWellFormed (record db { companions = cs; source_files = fs; imports = is })
unfolding references
others-IsWellFormed db cs fs is w = record {
  location_ids = w.location_ids;
  location_names = w.location_names;
  asset_ids = w.asset_ids;
  asset_paths = w.asset_paths;
  copy_keys = w.copy_keys;
  copies_refer =
      CopiesRefer-mono db (record db { companions = cs; source_files = fs; imports = is })
        (λ a l r. r) db.copies w.copies_refer;
}

put_companion-IsWellFormed :
    (db db' : Db) (c : Companion) → put_companion db c ≡ ok db' → IsWellFormed db → IsWellFormed db'
unfolding put_companion
put_companion-IsWellFormed db db' c q w =
    elim (Bool-cases (references db c.asset_id c.location_id)) [
      | inr b ↦ absurd (ground (arith, b))
      | inl b ↦
          subst IsWellFormed (ground (arith, b)) (
            others-IsWellFormed db (put companion_key c db.companions) db.source_files db.imports w)
    ]

delete_companion-IsWellFormed :
    (db db' : Db) (id : Text) (l : ℕ) (r : Role) (ext : Text)
    → delete_companion db id l r ext ≡ ok db'
    → IsWellFormed db
    → IsWellFormed db'
unfolding delete_companion
delete_companion-IsWellFormed db db' id l r ext q w =
    elim (Option-cases (find companion_key (id, (l, (r, ext))) db.companions)) [
      | inl n ↦ absurd (ground (arith, n))
      | inr (c, n) ↦ subst IsWellFormed (ground (arith, n)) (
          others-IsWellFormed db (remove companion_key (id, (l, (r, ext))) db.companions)
            db.source_files db.imports w)
    ]

put_source_file-IsWellFormed :
    (db db' : Db) (f : SourceFile)
    → put_source_file db f ≡ ok db'
    → IsWellFormed db
    → IsWellFormed db'
unfolding put_source_file
put_source_file-IsWellFormed db db' f q w =
    elim (Bool-cases (references db f.asset_id f.location_id)) [
      | inr b ↦ absurd (ground (arith, b))
      | inl b ↦ subst IsWellFormed (ground (arith, b)) (
          others-IsWellFormed db db.companions (put source_file_key f db.source_files) db.imports w)
    ]

begin_import-IsWellFormed :
    (db db' : Db) (l n : ℕ) (now : Time)
    → begin_import db l now ≡ ok (db', n)
    → IsWellFormed db
    → IsWellFormed db'
unfolding begin_import
begin_import-IsWellFormed db db' l n now q w =
    elim (Option-cases (find location_id_key l db.locations)) [
      | inl m ↦ absurd (ground (arith, m))
      | inr (k, m) ↦
          subst IsWellFormed (ground (arith, m))
            (others-IsWellFormed db db.companions db.source_files db'.imports w)
    ]

finish_import-IsWellFormed :
    (db db' : Db) (n new skipped failed : ℕ) (now : Time)
    → finish_import db n new skipped failed now ≡ ok db'
    → IsWellFormed db
    → IsWellFormed db'
unfolding finish_import
finish_import-IsWellFormed db db' n new skipped failed now q w =
    elim (Option-cases (find import_key n db.imports)) [
      | inl m ↦ absurd (ground (arith, m))
      | inr (k, m) ↦
          subst IsWellFormed (ground (arith, m))
            (others-IsWellFormed db db.companions db.source_files db'.imports w)
    ]

Step-IsWellFormed : (db db' : Db) → Step db db' → IsWellFormed db → IsWellFormed db'
unfolding set_asset_content set_full_sha256 set_project set_pinned
Step-IsWellFormed db _ (location_upserted _ l) w = upsert_location-IsWellFormed db l w
Step-IsWellFormed db db' (asset_put _ _ a q) w = put_asset-IsWellFormed db a w q
Step-IsWellFormed db db' (content_set _ _ id size sum q) w =
    update_asset-IsWellFormed _ (record { id = λ a. refl; kind = λ a. refl; rel_path = λ a. refl })
      db id w q
Step-IsWellFormed db db' (hash_set _ _ id sum q) w =
    update_asset-IsWellFormed _ (record { id = λ a. refl; kind = λ a. refl; rel_path = λ a. refl })
      db id w q
Step-IsWellFormed db db' (project_set _ _ id p q) w =
    update_asset-IsWellFormed _ (record { id = λ a. refl; kind = λ a. refl; rel_path = λ a. refl })
      db id w q
Step-IsWellFormed db db' (pinned_set _ _ id b q) w =
    update_asset-IsWellFormed _ (record { id = λ a. refl; kind = λ a. refl; rel_path = λ a. refl })
      db id w q
Step-IsWellFormed db db' (copy_put _ _ c q) w = put_copy-IsWellFormed db c w q
Step-IsWellFormed db db' (state_set _ _ id l s now q) w =
    set_copy_state-IsWellFormed db id l s now w q
Step-IsWellFormed db db' (copy_deleted _ _ id l q) w = delete_copy-IsWellFormed db id l w q
Step-IsWellFormed db db' (companion_put _ _ c q) w = put_companion-IsWellFormed db db' c q w
Step-IsWellFormed db db' (companion_deleted _ _ id l r ext q) w =
    delete_companion-IsWellFormed db db' id l r ext q w
Step-IsWellFormed db db' (source_put _ _ f q) w = put_source_file-IsWellFormed db db' f q w
Step-IsWellFormed db db' (import_begun _ _ l n now q) w =
    begin_import-IsWellFormed db db' l n now q w
Step-IsWellFormed db db' (import_finished _ _ n new skipped failed now q) w =
    finish_import-IsWellFormed db db' n new skipped failed now q w

-- Every database that successful statements make from the empty one satisfies the constraints:
-- ids, location names, and paths of a kind are unique, and every copy is of an asset and on a
-- location that are there.
pub Reachable-IsWellFormed : (db : Db) → Reachable db → IsWellFormed db
Reachable-IsWellFormed _ start = empty-IsWellFormed
Reachable-IsWellFormed db' (extended db _ r s) =
    Step-IsWellFormed db db' s (Reachable-IsWellFormed db r)
