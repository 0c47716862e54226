-- ===== src/Ingest/Listing/Tests.antt =====
-- The picture of the card, listed and selected.
use mediamanager.Base.{
  ◌≡◌, refl, List, [], ◌∷◌, map, keep, codes, text_eq, trim_prefix, trim_suffix, ℕ_eq, Text_eq,
  Pair_eq, ok,
}
use mediamanager.Catalog.{LocationKind_eq, CopyState_eq, JoinedCopy, Role_eq}
use mediamanager.Ingest.Scenarios.{card, vault, picture, on_card, store}
use mediamanager.Ingest.Scanned.{AssetRef}
use mediamanager.Ingest.Listing.{asset_status, select}
use mediamanager.Ingest.Listing.Selected.{OnceEach, select-OnceEach}
use mediamanager.Ingest.Listing.States.{complete_copy, expected_state, asset_status-expected_state}

abbrev copies_of_picture : List JoinedCopy
copies_of_picture =
    record { copy = record on_card { location_id = 3 }; location = vault }
    ∷ record { copy = on_card; location = card }
    ∷ []

asset_status-expected_state_example :
    ((asset_status picture copies_of_picture).state ≡ expected_state copies_of_picture)
    × ((asset_status picture copies_of_picture).copies
        ≡ map (λ (c : JoinedCopy). c.location.name) (keep complete_copy copies_of_picture))
asset_status-expected_state_example = asset_status-expected_state picture copies_of_picture

abbrev selected : List AssetRef
selected = record { id = codes "p"; path = codes "still/p.dng"; size = 2 } ∷ []

selects : (select (codes "p" ∷ codes "./still/" ∷ codes "p.dng" ∷ []) store).0 ≡ ok selected
unfolding select mediamanager.Catalog.Assets.asset mediamanager.Table.find mediamanager.Base.text_eq
    mediamanager.Catalog.Assets.assets_by_kind mediamanager.Base.Sorting.sort
    mediamanager.Media.kind_eq mediamanager.Base.trim_prefix mediamanager.Base.trim_suffix
    mediamanager.Media.string
selects = refl

select-OnceEach_example : OnceEach selected
select-OnceEach_example =
    select-OnceEach (codes "p" ∷ codes "./still/" ∷ codes "p.dng" ∷ []) store selected selects
