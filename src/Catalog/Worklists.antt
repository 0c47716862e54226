-- ===== src/Catalog/Worklists.antt =====
-- catalog.go: the archive and flush worklists.
pub mod Exact
use mediamanager.Base.{
  ℕ, Bool, ◌&&◌, ◌||◌, not, List, map, keep, any, Text, text_ltb, ◌==◌, ℕ_eq, Text_eq, Pair_eq,
}
use mediamanager.Base.Sorting.{sort}
use mediamanager.Catalog.{nas, LocationKind_eq, Asset, complete, CopyState_eq, Role_eq, Db}
use mediamanager.Catalog.Copies.{joined}
use mediamanager.Catalog.Sources.{page}

-- EXISTS (SELECT 1 FROM copies c WHERE c.asset_id = a.id AND c.state = 'complete')
unfoldable pub has_complete : Db → Text → Bool
has_complete db id = any (λ c. c.asset_id == id && c.state == complete) db.copies

-- The same on one location
unfoldable pub has_complete_at : Db → Text → ℕ → Bool
has_complete_at db id location_id =
    any (λ c. c.asset_id == id && (c.location_id == location_id && c.state == complete)) db.copies

-- The same joined with a location of kind 'nas'
unfoldable pub has_complete_on_nas : Db → Text → Bool
has_complete_on_nas db id =
    any (λ c. c.state == complete && c.location.kind == nas)
      (joined db (keep (λ c. c.asset_id == id) db.copies))

-- ORDER BY capture_time, id: the stored texts are compared.
unfoldable pub captured_before : Asset → Asset → Bool
captured_before a b =
    text_ltb a.capture_time.stamp b.capture_time.stamp
    || (a.capture_time.stamp == b.capture_time.stamp && text_ltb a.id b.id)

-- NeedsArchive
unfoldable pub needs_archive : Db → List Asset
needs_archive db =
    sort captured_before
      (keep (λ a. has_complete db a.id && not (has_complete_on_nas db a.id)) db.assets)

-- Flushable
unfoldable pub flushable : Db → ℕ → List Asset
flushable db spool_id = sort captured_before (
    keep (λ a. not a.pinned && (has_complete_at db a.id spool_id && has_complete_on_nas db a.id))
      db.assets)

-- NeedsArchiveIDs
unfoldable pub needs_archive_ids : Db → ℕ → ℕ → List Text
needs_archive_ids db offset limit = page offset limit (map (λ a. a.id) (needs_archive db))
