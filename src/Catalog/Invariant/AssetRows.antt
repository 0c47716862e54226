-- ===== src/Catalog/Invariant/AssetRows.antt =====
-- The statements of catalog/catalog.go on the assets table keep the constraints.
use mediamanager.Base.{
  ℕ, ◌≡◌, sym, subst, inl, inr, true, false, none, List, [], ◌∷◌, arith, Bool-cases, Option-cases,
  Text, ◌==◌, ℕ_eq, Text_eq, Pair_eq, ok,
}
use mediamanager.Media.{Kind, Kind_eq}
use mediamanager.Table.{find, put, change, Absent, Distinct, find-Absent}
use mediamanager.Table.Keys.{put-Distinct, change-Distinct, All-change}
use mediamanager.Table.Others.{insert-Distinct, any-insert, any-change}
use mediamanager.Catalog.{
  LocationKind_eq, Asset, CopyState_eq, Role_eq, Db, asset_key, asset_path_key,
}
use mediamanager.Catalog.Assets.{put_known, put_new, put_asset, update_asset}
use mediamanager.Catalog.Copies.{references}
use mediamanager.Catalog.Invariant.{IsWellFormed, CopiesRefer-mono}

more_assets :
    (db : Db) (a : Asset)
    → Absent asset_key a.id db.assets
    → (id : Text) (l : ℕ) → references db id l ≡ true
    → references (record db { assets = put asset_key a db.assets }) id l ≡ true
unfolding references
more_assets db a absent id l h =
    ground (arith, any-insert asset_key asset_key id a db.assets absent)

-- PutAsset where the id is new keeps the tables well formed.
put_new-IsWellFormed :
    (db : Db) (a : Asset) {db' : Db}
    → IsWellFormed db
    → find asset_key a.id db.assets ≡ none
    → put_new db a ≡ ok db'
    → IsWellFormed db'
unfolding put_new
put_new-IsWellFormed db a {db'} w fresh h =
    elim (Option-cases (find asset_path_key (asset_path_key a) db.assets)) [
      | inr (other, q) ↦ absurd (ground arith)
      | inl q ↦ subst IsWellFormed (made q) (record {
        location_ids = w.location_ids;
        location_names = w.location_names;
        asset_ids = put-Distinct asset_key a db.assets w.asset_ids;
        asset_paths =
            insert-Distinct asset_key asset_path_key a db.assets
              (find-Absent asset_path_key (asset_path_key a) db.assets q) w.asset_paths absent;
        copy_keys = w.copy_keys;
        copies_refer = CopiesRefer-mono db _ (more_assets db a absent) db.copies w.copies_refer;
      })
    ]
  where
    absent : Absent asset_key a.id db.assets
    absent = find-Absent asset_key a.id db.assets fresh

    made :
        find asset_path_key (asset_path_key a) db.assets ≡ none
        → record db { assets = put asset_key a db.assets } ≡ db'
    made q = ground arith

put_known-IsWellFormed :
    (db : Db) (a have : Asset) {db' : Db}
    → IsWellFormed db
    → put_known db a have ≡ ok db'
    → IsWellFormed db'
unfolding put_known
put_known-IsWellFormed db a have w h = subst IsWellFormed (ground arith) w

-- PutAsset keeps the tables well formed: in particular no two assets of a kind share a path.
pub put_asset-IsWellFormed :
    (db : Db) (a : Asset) {db' : Db} → IsWellFormed db → put_asset db a ≡ ok db' → IsWellFormed db'
unfolding put_asset
put_asset-IsWellFormed db a w h = elim (Option-cases (find asset_key a.id db.assets)) [
  | inl q ↦ put_new-IsWellFormed db a w q (ground arith)
  | inr (have, q) ↦ put_known-IsWellFormed db a have w (ground arith)
]

-- UPDATE assets, by a change that leaves the id, the kind and the path.
pub record KeepsKeys (f : Asset → Asset) : Type 0 where
  pub id : (a : Asset) → (f a).id ≡ a.id
  pub kind : (a : Asset) → (f a).kind ≡ a.kind
  pub rel_path : (a : Asset) → (f a).rel_path ≡ a.rel_path

module _ (f : Asset → Asset) (keeps : KeepsKeys f) where
  path_key : (a : Asset) → asset_path_key (f a) ≡ asset_path_key a
  path_key a = λ i. (keeps.kind a i, keeps.rel_path a i)

  Absent-change :
      (k : Kind × Text) (id : Text) (xs : List Asset)
      → Absent asset_path_key k xs
      → Absent asset_path_key k (change asset_key id f xs)
  Absent-change k id xs =
      All-change asset_key (λ z. (asset_path_key z == k) ≡ false) id f xs
        (λ a h. subst (λ p. (p == k) ≡ false) (sym (path_key a)) h)

  change-paths :
      (id : Text) (xs : List Asset)
      → Distinct asset_path_key xs
      → Distinct asset_path_key (change asset_key id f xs)
  unfolding change
  change-paths id [] d = tt
  change-paths id (x ∷ xs) d = elim (Bool-cases (x.id == id)) [
    | inl q ↦ rw q (
      subst (λ k. Absent asset_path_key k (change asset_key id f xs)) (sym (path_key x))
          (Absent-change _ id xs d.0),
      change-paths id xs d.1,
    )
    | inr q ↦ rw q (Absent-change _ id xs d.0, change-paths id xs d.1)
  ]

  pub update_asset-IsWellFormed :
      (db : Db) (id : Text) {db' : Db}
      → IsWellFormed db
      → update_asset db id f ≡ ok db'
      → IsWellFormed db'
  unfolding update_asset references
  update_asset-IsWellFormed db id w h = elim (Option-cases (find asset_key id db.assets)) [
    | inl q ↦ absurd (ground arith)
    | inr (a, q) ↦
        subst IsWellFormed {x = record db { assets = change asset_key id f db.assets }}
          (ground arith)
          (record {
            location_ids = w.location_ids;
            location_names = w.location_names;
            asset_ids = change-Distinct asset_key f keeps.id id db.assets w.asset_ids;
            asset_paths = change-paths id db.assets w.asset_paths;
            copy_keys = w.copy_keys;
            copies_refer =
                CopiesRefer-mono db (record db { assets = change asset_key id f db.assets })
                  (λ j l r. ground (arith, any-change asset_key j id f db.assets keeps.id))
                  db.copies w.copies_refer;
          })
  ]
