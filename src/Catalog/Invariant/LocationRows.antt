-- ===== src/Catalog/Invariant/LocationRows.antt =====
-- The statement of catalog/catalog.go on the locations table keeps the constraints.
use mediamanager.Base.{
  ℕ, ◌<◌, ◌≡◌, refl, ◌∙◌, inl, inr, true, List, [], ◌∷◌, arith, Option-cases, any, ◌==◌, ℕ_eq,
  Text_eq, Pair_eq,
}
use mediamanager.Media.{Kind_eq}
use mediamanager.Table.{find, put, Absent, Distinct, find-Absent}
use mediamanager.Table.Keys.{put-Distinct}
use mediamanager.Table.Others.{replace-Distinct, insert-Distinct, any-replace, any-insert}
use mediamanager.Catalog.{
  LocationKind_eq, Location, CopyState_eq, Role_eq, Db, location_id_key, location_name_key,
}
use mediamanager.Catalog.Locations.{largest, next_id, upserted, upsert_location}
use mediamanager.Catalog.Copies.{references}
use mediamanager.Catalog.Invariant.{IsWellFormed, CopiesRefer-mono}

next_id-Absent :
    (xs : List Location) (n : ℕ) → largest location_id_key xs < n → Absent location_id_key n xs
unfolding largest
next_id-Absent [] n h = tt
next_id-Absent (x ∷ xs) n h = (ground arith, next_id-Absent xs n (omega arith))

module _ (db : Db) (row : Location) (w : IsWellFormed db) where
  -- The tables with a location put in, which keeps the ids that were there.
  with_location :
      Distinct location_id_key (put location_name_key row db.locations)
      → ((l : ℕ)
          → any (λ z. z.id == l) db.locations ≡ true
          → any (λ z. z.id == l) (put location_name_key row db.locations) ≡ true)
      → IsWellFormed (record db { locations = put location_name_key row db.locations })
  unfolding references
  with_location ids more = record {
    location_ids = ids;
    location_names = put-Distinct location_name_key row db.locations w.location_names;
    asset_ids = w.asset_ids;
    asset_paths = w.asset_paths;
    copy_keys = w.copy_keys;
    copies_refer =
        CopiesRefer-mono db (record db { locations = put location_name_key row db.locations })
          (λ a l r. ground (arith, more l)) db.copies w.copies_refer;
  }

-- UpsertLocation keeps the tables well formed: a known name keeps its id, and a new one gets an id
-- that no location has.
pub upsert_location-IsWellFormed :
    (db : Db) (l : Location) → IsWellFormed db → IsWellFormed (upsert_location db l).0
unfolding upsert_location upserted next_id
upsert_location-IsWellFormed db l w =
    elim (Option-cases (find location_name_key l.name db.locations)) [
      | inl q ↦
          let absent = find-Absent location_name_key l.name db.locations q in
          let fresh =
            next_id-Absent db.locations (next_id location_id_key db.locations) (omega arith) in
          rw (q, upserted)
            (with_location db _ w
              (insert-Distinct location_name_key location_id_key _ db.locations fresh w.location_ids
                absent)
              (λ i. any-insert location_name_key location_id_key i _ db.locations absent))
      | inr (old, q) ↦
          rw (q, upserted)
            (with_location db _ w
              (replace-Distinct location_name_key location_id_key _ old db.locations q refl
                w.location_ids)
              (λ i r.
                any-replace location_name_key location_id_key i _ old db.locations q refl ∙ r))
    ]
