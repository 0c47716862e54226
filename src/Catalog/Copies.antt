-- ===== src/Catalog/Copies.antt =====
-- catalog.go: the copies table.
pub mod Joined
use mediamanager.Base.{
  ℕ, Bool, ◌&&◌, ◌||◌, Option, none, some, List, [], ◌∷◌, ltb, if◌then◌else◌, keep, any, Text, ◌==◌,
  ℕ_eq, Text_eq, Pair_eq, Result, ok, err,
}
use mediamanager.Base.Int.{ℤ_eq}
use mediamanager.Base.Sorting.{sort}
use mediamanager.Clock.{Time, zero_time}
use mediamanager.Table.{find, put, change, remove}
use mediamanager.Catalog.{
  LocationKind, source, spool, nas, LocationKind_eq, CopyState, complete, CopyState_eq, Copy,
  JoinedCopy, Role_eq, Db, Error, not_found, no_such_key, location_id_key, copy_key,
}
use mediamanager.Catalog.Locations.{by_priority}

-- The foreign keys of a row that names an asset and a location.
unfoldable pub references : Db → Text → ℕ → Bool
references db asset_id location_id =
    any (λ a. a.id == asset_id) db.assets && any (λ l. l.id == location_id) db.locations

-- PutCopy
unfoldable pub put_copy : Db → Copy → Result Error Db
put_copy db c =
    if references db c.asset_id c.location_id
    then ok (record db { copies = put copy_key c db.copies })
    else err no_such_key

-- The row of an asset on a location.
unfoldable pub copy_at : Db → Text → ℕ → Option Copy
copy_at db asset_id location_id = find copy_key (asset_id, location_id) db.copies

-- SetCopyState; `now` is the clock's time.
unfoldable pub set_copy_state : Db → Text → ℕ → CopyState → Time → Result Error Db
set_copy_state db asset_id location_id state now =
    let stamp = if state == complete then now else zero_time in
    elim (copy_at db asset_id location_id) [
      | none ↦ err not_found
      | some c ↦ ok (record db {
        copies =
            change copy_key (asset_id, location_id)
              (λ c. record c { state = state; verified_at = stamp }) db.copies;
      })
    ]

-- DeleteCopy
unfoldable pub delete_copy : Db → Text → ℕ → Result Error Db
delete_copy db asset_id location_id = elim (copy_at db asset_id location_id) [
  | none ↦ err not_found
  | some c ↦ ok (record db { copies = remove copy_key (asset_id, location_id) db.copies })
]

-- JOIN locations l ON l.id = c.location_id
unfoldable pub joined : Db → List Copy → List JoinedCopy
joined db [] = []
joined db (c ∷ cs) =
    let rest = joined db cs in
    elim (find location_id_key c.location_id db.locations) [
      | none ↦ rest
      | some l ↦ record { copy = c; location = l } ∷ rest
    ]

-- CASE l.kind WHEN 'spool' THEN 0 WHEN 'nas' THEN 1 ELSE 2 END
unfoldable pub tier : LocationKind → ℕ
tier spool = 0
tier nas = 1
tier source = 2

-- ORDER BY the tier, l.priority, l.id
unfoldable pub nearer : JoinedCopy → JoinedCopy → Bool
unfolding tier by_priority
nearer c d =
    ltb (tier c.location.kind) (tier d.location.kind)
    || (tier c.location.kind == tier d.location.kind && by_priority c.location d.location)

-- Copies
unfoldable pub copies : Db → Text → List JoinedCopy
copies db asset_id = sort nearer (joined db (keep (λ c. c.asset_id == asset_id) db.copies))
