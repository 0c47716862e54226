-- ===== src/Catalog/Locations.antt =====
-- catalog.go: the locations table.
use mediamanager.Base.{
  ℕ, suc, max, Bool, ◌&&◌, ◌||◌, none, some, List, [], ◌∷◌, ltb, keep, Text, ◌==◌, ℕ_eq, Text_eq,
  Pair_eq, Result, ok, err,
}
use mediamanager.Base.Int.{ℤ_eq, int_ltb}
use mediamanager.Base.Sorting.{sort}
use mediamanager.Table.{find, put}
use mediamanager.Catalog.{
  LocationKind, source, spool, nas, LocationKind_eq, Location, CopyState_eq, Role_eq, Db, Error,
  not_found, location_id_key, location_name_key,
}

-- A fresh INTEGER PRIMARY KEY is one more than the largest.
module _ {A : Type 0} (id : A → ℕ) where
  unfoldable pub largest : List A → ℕ
  largest [] = 0
  largest (x ∷ xs) = max (id x) (largest xs)

  unfoldable pub next_id : List A → ℕ
  unfolding largest
  next_id xs = suc (largest xs)

-- LocationByName
unfoldable pub location_by_name : Db → Text → Result Error Location
location_by_name db name = elim (find location_name_key name db.locations) [
  | none ↦ err not_found
  | some l ↦ ok l
]

-- LocationByID
unfoldable pub location_by_id : Db → ℕ → Result Error Location
location_by_id db id = elim (find location_id_key id db.locations) [
  | none ↦ err not_found
  | some l ↦ ok l
]

-- The row that UpsertLocation leaves: a known name keeps its id.
unfoldable pub upserted : Db → Location → Location
upserted db l = elim (find location_name_key l.name db.locations) [
  | none ↦ record l { id = next_id location_id_key db.locations }
  | some old ↦ record l { id = old.id }
]

-- UpsertLocation
unfoldable pub upsert_location : Db → Location → Db × Location
upsert_location db l =
    (record db { locations = put location_name_key (upserted db l) db.locations }, upserted db l)

-- ORDER BY priority, id
unfoldable pub by_priority : Location → Location → Bool
unfolding int_ltb
by_priority l m = int_ltb l.priority m.priority || (l.priority == m.priority && ltb l.id m.id)

-- Locations
unfoldable pub locations_of : Db → LocationKind → List Location
unfolding by_priority
locations_of db kind = sort by_priority (keep (λ l. l.kind == kind) db.locations)

-- The alphabetical place of a kind: nas, source, spool.
unfoldable pub kind_order : LocationKind → ℕ
kind_order nas = 0
kind_order source = 1
kind_order spool = 2

-- AllLocations
unfoldable pub all_locations : Db → List Location
unfolding by_priority kind_order
all_locations db =
    sort
      (λ l m. ltb (kind_order l.kind) (kind_order m.kind) || (l.kind == m.kind && by_priority l m))
      db.locations
