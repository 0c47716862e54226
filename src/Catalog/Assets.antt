-- ===== src/Catalog/Assets.antt =====
-- catalog.go: the assets table. The column created_at is written and never read, and left out.
pub mod Recorded
use mediamanager.Base.{
  ℕ, Bool, ◌&&◌, ◌||◌, none, some, List, [], if◌then◌else◌, keep, Text, text_ltb, ◌==◌, ℕ_eq,
  Text_eq, Pair_eq, Result, ok, err,
}
use mediamanager.Base.Sorting.{sort}
use mediamanager.Media.{Kind, unknown, Kind_eq}
use mediamanager.Table.{find, put, change}
use mediamanager.Catalog.{
  LocationKind_eq, Asset, CopyState_eq, Role_eq, Db, Error, not_found, path_taken,
  needs_id_and_path, already_recorded, check_failed, asset_key, asset_path_key,
}

-- Asset
unfoldable pub asset : Db → Text → Result Error Asset
asset db id = elim (find asset_key id db.assets) [ none ↦ err not_found | some a ↦ ok a ]

-- AssetByPath
unfoldable pub asset_by_path : Db → Kind → Text → Result Error Asset
asset_by_path db kind rel = elim (find asset_path_key (kind, rel) db.assets) [
  | none ↦ err not_found
  | some a ↦ ok a
]

-- What PutAsset does where the id is known: the row must be the same asset's.
unfoldable pub put_known : Db → Asset → Asset → Result Error Db
put_known db a have =
    if have.rel_path == a.rel_path && have.kind == a.kind then ok db else err already_recorded

-- What it does where the id is new: another asset may own the path.
unfoldable pub put_new : Db → Asset → Result Error Db
put_new db a = elim (find asset_path_key (asset_path_key a) db.assets) [
  | none ↦ ok (record db { assets = put asset_key a db.assets })
  | some other ↦ err path_taken
]

-- PutAsset
unfoldable pub put_asset : Db → Asset → Result Error Db
put_asset db a =
    if a.id == [] || a.rel_path == []
    then err needs_id_and_path
    else if a.kind == unknown
    then err check_failed
    else elim (find asset_key a.id db.assets) [
      | none ↦ put_new db a
      | some have ↦ put_known db a have
    ]

-- UPDATE assets … WHERE id = ?
unfoldable pub update_asset : Db → Text → (Asset → Asset) → Result Error Db
update_asset db id f = elim (find asset_key id db.assets) [
  | none ↦ err not_found
  | some a ↦ ok (record db { assets = change asset_key id f db.assets })
]

-- SetAssetContent
unfoldable pub set_asset_content : Db → Text → ℕ → Text → Result Error Db
set_asset_content db id size sum =
    update_asset db id λ a. record a { size = size; full_sha256 = sum }

-- SetFullSHA256
unfoldable pub set_full_sha256 : Db → Text → Text → Result Error Db
set_full_sha256 db id sum = update_asset db id λ a. record a { full_sha256 = sum }

-- SetProject
unfoldable pub set_project : Db → Text → Text → Result Error Db
set_project db id project = update_asset db id λ a. record a { project = project }

-- SetPinned
unfoldable pub set_pinned : Db → Text → Bool → Result Error Db
set_pinned db id pinned = update_asset db id λ a. record a { pinned = pinned }

-- AssetsByKind
unfoldable pub assets_by_kind : Db → Kind → List Asset
assets_by_kind db kind =
    sort (λ a b. text_ltb a.rel_path b.rel_path) (keep (λ a. a.kind == kind) db.assets)
