-- ===== src/Catalog/Assets/Recorded.antt =====
-- What PutAsset of catalog/catalog.go leaves recorded, and when it refuses.
use mediamanager.Base.{
  ◌≡◌, refl, sym, ap, ◌∙◌, ◌≢◌, ◌↔◌, ◌⊎◌, inl, inr, none, some, [], arith, Option-cases, Text,
  text_eq_iff, ℕ_eq, Text_eq, Pair_eq, err, ok,
}
use mediamanager.Media.{unknown, kind_eq_iff, Kind_eq}
use mediamanager.Table.{find, put, find-put, find-In}
use mediamanager.Catalog.{
  LocationKind_eq, Asset, CopyState_eq, Role_eq, Db, not_found, path_taken, asset_key,
  asset_path_key,
}
use mediamanager.Catalog.Assets.{asset, asset_by_path, put_known, put_new, put_asset}

module _ (db : Db) (a : Asset) where
  -- The two ways in which PutAsset succeeds.
  put_asset_cases :
      {db' : Db}
      → put_asset db a ≡ ok db'
      → ((find asset_key a.id db.assets ≡ none)
          × (db' ≡ record db { assets = put asset_key a db.assets }))
        ⊎ ((have : Asset) × (find asset_key a.id db.assets ≡ some have)
            × (have.rel_path ≡ a.rel_path)
            × (have.kind ≡ a.kind)
            × (db' ≡ db))
  unfolding put_asset put_new put_known
  put_asset_cases h = elim (Option-cases (find asset_key a.id db.assets)) [
    | inl q ↦ inl (q, ground arith)
    | inr (have, q) ↦ inr (
      have,
      q,
      ground (arith, text_eq_iff have.rel_path a.rel_path),
      ground (arith, kind_eq_iff have.kind a.kind),
      ground arith,
    )
  ]

  -- After a successful PutAsset the id finds an asset of that kind at that path, and every other
  -- id finds what it found before.
  pub asset-put_asset :
      {db' : Db}
      → put_asset db a ≡ ok db'
      → (have : Asset) × (asset db' a.id ≡ ok have)
        × (have.rel_path ≡ a.rel_path)
        × (have.kind ≡ a.kind)
        × ((j : Text) → j ≢ a.id → asset db' j ≡ asset db j)
  unfolding asset
  asset-put_asset h = elim (put_asset_cases h) [
    | inl (q, e) ↦ (
      a,
      rw e (ground (arith, find-put asset_key a.id a db.assets, text_eq_iff a.id a.id)),
      refl,
      refl,
      λ j n. rw e (ground (arith, find-put asset_key j a db.assets, text_eq_iff a.id j)),
    )
    | inr (have, q, p, k, e) ↦ (have, rw (e, asset, q), p, k, λ j n. rw e)
  ]

  -- For an id and a path that are not empty and a known kind, ErrPathTaken is returned exactly
  -- when the id is new and another asset of the kind owns the path.
  pub put_asset-path_taken :
      a.id ≢ []
      → a.rel_path ≢ []
      → a.kind ≢ unknown
      → (put_asset db a ≡ err path_taken) ↔ (
          (asset db a.id ≡ err not_found)
          × ((other : Asset) × (asset_by_path db a.kind a.rel_path ≡ ok other)))
  unfolding put_asset put_new put_known asset asset_by_path
  put_asset-path_taken i r k = (
    λ h. elim (Option-cases (find asset_path_key (asset_path_key a) db.assets)) [
      | inl q ↦ absurd (ground arith)
      | inr (other, q) ↦ (ground arith, (other, rw (asset_by_path, q)))
    ],
    λ (h, (other, t)).
        ground (arith, text_eq_iff a.id [], text_eq_iff a.rel_path [], kind_eq_iff a.kind unknown),
  )

-- The asset that an id finds has the id.
pub asset-id : (db : Db) (id : Text) (a : Asset) → asset db id ≡ ok a → a.id ≡ id
unfolding asset
asset-id db id a q = elim (Option-cases (find asset_key id db.assets)) [
  | inl n ↦ absurd (ground (arith, n))
  | inr (b, n) ↦
      let same : b ≡ a = ground (arith, q, n) in
      ap asset_key (sym same) ∙ (find-In asset_key id b db.assets n).1
]
