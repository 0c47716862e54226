-- ===== src/Catalog/Invariant.antt =====
-- The constraints of catalog/schema.sql as an invariant of the tables. The children show that each
-- statement of catalog/catalog.go on those tables keeps it.
pub mod AssetRows
pub mod CopyRows
pub mod LocationRows
pub mod Reachable
use mediamanager.Base.{ℕ, ◌≡◌, true, List, [], ◌∷◌, All, Text, ℕ_eq, Text_eq, Pair_eq}
use mediamanager.Media.{Kind_eq}
use mediamanager.Table.{Distinct}
use mediamanager.Catalog.{
  LocationKind_eq, CopyState_eq, Copy, Role_eq, Db, empty, location_id_key, location_name_key,
  asset_key, asset_path_key, copy_key,
}
use mediamanager.Catalog.Copies.{references, copies}

-- Every row of a list names an asset and a location that exist.
abbrev pub CopiesRefer : Db → List Copy → Type 0
CopiesRefer db = All (λ c. references db c.asset_id c.location_id ≡ true)

pub record IsWellFormed (db : Db) : Type 0 where
  pub location_ids : Distinct location_id_key db.locations
  pub location_names : Distinct location_name_key db.locations
  pub asset_ids : Distinct asset_key db.assets
  pub asset_paths : Distinct asset_path_key db.assets
  pub copy_keys : Distinct copy_key db.copies
  pub copies_refer : CopiesRefer db db.copies

pub empty-IsWellFormed : IsWellFormed empty
empty-IsWellFormed = record {
  location_ids = tt;
  location_names = tt;
  asset_ids = tt;
  asset_paths = tt;
  copy_keys = tt;
  copies_refer = tt;
}

-- A database that finds all that another found.
pub CopiesRefer-mono :
    (db db' : Db)
    → ((a : Text) (l : ℕ) → references db a l ≡ true → references db' a l ≡ true)
    → (cs : List Copy) → CopiesRefer db cs
    → CopiesRefer db' cs
CopiesRefer-mono db db' more [] h = tt
CopiesRefer-mono db db' more (c ∷ cs) h =
    (more c.asset_id c.location_id h.0, CopiesRefer-mono db db' more cs h.1)
