-- ===== src/Catalog/Companions.antt =====
-- catalog.go: the companions table, whose files never count as copies of the original.
use mediamanager.Base.{
  ℕ, Bool, ◌&&◌, ◌||◌, none, some, List, ltb, if◌then◌else◌, keep, Text, text_ltb, ◌==◌, ℕ_eq,
  Text_eq, Pair_eq, Result, ok, err,
}
use mediamanager.Base.Sorting.{sort}
use mediamanager.Table.{find, put, remove}
use mediamanager.Catalog.{
  LocationKind_eq, CopyState_eq, Role, proxy, sidecar, proxy_sidecar, Role_eq, Companion, Db, Error,
  not_found, no_such_key, companion_key,
}
use mediamanager.Catalog.Copies.{references}

-- PutCompanion
unfoldable pub put_companion : Db → Companion → Result Error Db
put_companion db c =
    if references db c.asset_id c.location_id
    then ok (record db { companions = put companion_key c db.companions })
    else err no_such_key

-- DeleteCompanion
unfoldable pub delete_companion : Db → Text → ℕ → Role → Text → Result Error Db
delete_companion db asset_id location_id role ext =
    let key : Text × (ℕ × (Role × Text)) = (asset_id, (location_id, (role, ext))) in
    elim (find companion_key key db.companions) [
      | none ↦ err not_found
      | some c ↦ ok (record db { companions = remove companion_key key db.companions })
    ]

-- The alphabetical place of a role: proxy, proxy-sidecar, sidecar.
unfoldable pub role_order : Role → ℕ
role_order proxy = 0
role_order proxy_sidecar = 1
role_order sidecar = 2

-- ORDER BY location_id, role, ext
unfoldable pub companion_before : Companion → Companion → Bool
unfolding role_order
companion_before c d =
    ltb c.location_id d.location_id
    || (c.location_id == d.location_id
        && (ltb (role_order c.role) (role_order d.role)
            || (c.role == d.role && text_ltb c.ext d.ext)))

-- Companions
unfoldable pub companions : Db → Text → List Companion
companions db asset_id = sort companion_before (keep (λ c. c.asset_id == asset_id) db.companions)
