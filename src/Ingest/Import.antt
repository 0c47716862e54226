-- ===== src/Ingest/Import.antt =====
-- ingest/import.go: the flows over whole sources and worklists. The archivers of Import run beside it; here
-- an asset that is handed over is archived at once, which is one of the orders that a run may take. A
-- caller's callbacks, the log and the times are left out.
pub mod SafeToFormat
pub mod Pages
pub mod Fuel
mod Tests
use mediamanager.Base.Exec.{pure, ◌>>=◌, ◌>>◌}
use mediamanager.Base.{
  ℕ, zero, suc, ◌+◌, Bool, true, false, ◌&&◌, not, Option, none, some, List, [], ◌∷◌, ◌++◌, ltb,
  if◌then◌else◌, length, is_empty, any, Text, codes, ℕ_eq, Text_eq, Pair_eq, ◌==◌, Result, err, ok,
}
use mediamanager.Ingest.Store.{Failure, spool_full, Step, ask, query, on_files, tried}
use mediamanager.Ingest.Env.{Env, Place, places, source_name}
use mediamanager.Catalog.{
  spool, nas, LocationKind_eq, Asset, complete, CopyState_eq, JoinedCopy, Role_eq,
}
use mediamanager.Clock.{Time, before}
use mediamanager.Identity
use mediamanager.Scan.{File}
use mediamanager.Scan.Walk.{Entries}
use mediamanager.Files.{found, check_context}
use mediamanager.Ingest.Scanned.{Source, scan_source}
use mediamanager.Ingest.Transfer.{CopyResult, lookup, spool_asset, archive_asset}
use mediamanager.Ingest.Flushing.{FlushOptions, FlushReport, flush}
use mediamanager.Ingest.Reconcile.{ReconcileReport, reconcile_trees}
use mediamanager.Catalog.Copies.{copies}
use mediamanager.Catalog.Locations.{location_by_name}
use mediamanager.Catalog.Sources.{source_asset_ids}
use mediamanager.Catalog.Worklists.{needs_archive, needs_archive_ids}

-- Failure of an asset in a step
pub record AssetFailure : Type 0 where
  pub asset_id : Text
  pub step : Text
  pub why : Failure

-- Summary
pub record Summary : Type 0 where
  pub spooled : ℕ
  pub archived : ℕ
  pub no_room : List Text
  pub failures : List AssetFailure
  pub safe_to_format : Bool

abbrev pub empty_summary : Summary
empty_summary = record {
  spooled = 0;
  archived = 0;
  no_room = [];
  failures = [];
  safe_to_format = false;
}

unfoldable pub failed_at : Text → Text → Failure → Summary → Summary
failed_at id step e sum = record sum {
  failures = sum.failures ++ (record { asset_id = id; step = step; why = e } ∷ []);
}

-- A complete copy on a NAS that is mounted.
unfoldable pub is_archived_copy : List Place → JoinedCopy → Bool
is_archived_copy ps c =
    c.copy.state == complete
    && c.location.kind == nas
    && any (λ (p : Place). p.cat.id == c.copy.location_id && p.mounted) ps

-- Env.archived
unfoldable pub archived : List Place → Text → Step Bool
unfolding ask is_archived_copy
archived ps id = do cs ← ask (λ db. copies db id); pure (any (is_archived_copy ps) cs)

-- How many of the copies were made and not skipped.
unfoldable pub made : List CopyResult → ℕ
made [] = 0
made (r ∷ rs) = let n = made rs in if r.skipped then n else suc n

-- The page that AllArchivedOn asks for
abbrev pub page_size : ℕ
page_size = 1000

module _ (sha256 : Identity.Bytes → Identity.Bytes) (env : Env) where
  abbrev pub noted : Text → Summary → Result Failure (List CopyResult) → Summary
  noted id sum (ok rs) = record sum { archived = sum.archived + made rs }
  noted id sum (err e) = failed_at id (codes "archive") e sum

  -- What an archiver does with one asset.
  unfoldable pub archive_noted : List Place → Text → Summary → Step Summary
  unfolding archive_asset made failed_at
  archive_noted ps id sum s =
      let r = archive_asset sha256 env ps id s in (ok (noted id sum r.0), r.1)

  abbrev pub is_spool_full : Failure → Bool
  is_spool_full spool_full = true
  is_spool_full _ = false

  -- What Import makes of the end of Spool; a failure other than a full spool ends the asset's round.
  abbrev pub spool_noted : List Place → Text → Summary → Result Failure CopyResult → Step Summary
  spool_noted ps id sum (ok r) =
      archive_noted ps id (if r.skipped then sum else record sum { spooled = suc sum.spooled })
  spool_noted ps id sum (err e) =
      if is_spool_full e
      then archive_noted ps id (record sum { no_room = sum.no_room ++ (id ∷ []) })
      else pure (failed_at id (codes "spool") e sum)

  abbrev pub import_as : List Place → Text → Summary → Result Failure Bool → Step Summary
  import_as ps id sum (err e) = pure (failed_at id (codes "lookup") e sum)
  import_as ps id sum (ok true) = archive_noted ps id sum
  import_as ps id sum (ok false) =
      λ s. let r = spool_asset sha256 env ps id s in spool_noted ps id sum r.0 r.1

  -- One round of Import's loop.
  unfoldable pub import_one : List Place → Text → Summary → Step Summary
  unfolding archived spool_asset archive_noted failed_at
  import_one ps id sum s = let r = archived ps id s in import_as ps id sum r.0 r.1

  -- The loop over the assets of the source: each once, until the caller cancels.
  unfoldable pub import_all : List Place → List Text → List Text → Summary → Step Summary
  unfolding import_one on_files
  import_all ps queued [] sum = pure sum
  import_all ps queued (id ∷ ids) sum = do
    on_files check_context
    sum' ← if any (λ q. q == id) queued then pure sum else import_one ps id sum
    import_all ps (id ∷ queued) ids sum'

  -- The assets that are left over from earlier runs.
  unfoldable pub archive_left : List Place → List Text → List Asset → Summary → Step Summary
  unfolding archive_noted
  archive_left ps queued [] sum = pure sum
  archive_left ps queued (a ∷ more) sum = do
    sum' ← if any (λ q. q == a.id) queued then pure sum else archive_noted ps a.id sum
    archive_left ps queued more sum'

  abbrev pub left_over : Option (List Asset) → List Asset
  left_over none = []
  left_over (some found) = found

  abbrev pub if_so : Step Bool → Option Bool → Step Bool
  if_so rest (some true) = rest
  if_so rest _ = pure false

  -- Whether every one of the assets is archived; a failing lookup is a no.
  unfoldable pub all_archived : List Place → List Text → Step Bool
  unfolding archived
  all_archived ps [] = pure true
  all_archived ps (id ∷ ids) = do done ← tried (archived ps id); if_so (all_archived ps ids) done

  -- Import
  unfoldable pub import_source : (File → Time) → (Text → Entries) → Text → Step (Source × Summary)
  unfolding places reconcile_trees scan_source import_all archive_left all_archived ask
  import_source capture_time entries root = do
    ps ← places env
    before ← reconcile_trees sha256 env ps
    src ← scan_source sha256 capture_time env entries root
    linked ← reconcile_trees sha256 env ps
    sum ← import_all ps [] src.assets empty_summary
    on_files check_context
    found ← tried (ask needs_archive)
    sum' ← archive_left ps src.assets (left_over found) sum
    on_files check_context
    safe ← all_archived ps src.assets
    pure (src, record sum' { safe_to_format = not (is_empty src.assets) && safe })

  -- The loop of ArchiveAll
  unfoldable pub archive_each : List Place → List Asset → Summary → Step Summary
  unfolding archive_noted
  archive_each ps [] sum = pure sum
  archive_each ps (a ∷ more) sum = do sum' ← archive_noted ps a.id sum; archive_each ps more sum'

  -- ArchiveAll
  unfoldable pub archive_everything : Step Summary
  unfolding places ask archive_each
  archive_everything = do
    ps ← places env
    found ← ask needs_archive
    archive_each ps found empty_summary

  -- SourceAssetIDs
  unfoldable pub ids_on_source : Text → ℕ → ℕ → Step (List Text)
  unfolding query ask
  ids_on_source source_name offset limit = do
    loc ← query (λ db. location_by_name db source_name)
    ask (λ db. source_asset_ids db loc.id offset limit)

  -- NeedsArchivePage
  unfoldable pub needs_archive_page : ℕ → ℕ → Step (List Text)
  unfolding ask
  needs_archive_page offset limit = ask (λ db. needs_archive_ids db offset limit)

  -- SpoolAsset, ArchiveAsset, IsArchived
  unfoldable pub spool_by_id : Text → Step CopyResult
  unfolding places spool_asset
  spool_by_id id = do ps ← places env; spool_asset sha256 env ps id

  unfoldable pub archive_by_id : Text → Step (List CopyResult)
  unfolding places archive_asset
  archive_by_id id = do ps ← places env; archive_asset sha256 env ps id

  unfoldable pub is_archived : Text → Step Bool
  unfolding places archived
  is_archived id = do ps ← places env; archived ps id

  -- FlushSpool, Relink
  unfoldable pub flush_spool : Text → FlushOptions → Step FlushReport
  unfolding places flush
  flush_spool name opts = do ps ← places env; flush sha256 env ps name opts

  unfoldable pub relink : Step ReconcileReport
  unfolding places reconcile_trees
  relink = do ps ← places env; reconcile_trees sha256 env ps

  -- One page of AllArchivedOn: whether all of it is archived. A failing lookup ends the loop.
  unfoldable pub page_archived : List Place → List Text → Step Bool
  unfolding archived
  page_archived ps [] = pure true
  page_archived ps (id ∷ ids) = do
    done ← archived ps id
    if done then page_archived ps ids else pure false

  -- The loop of AllArchivedOn from a page on, having seen n assets; `fuel` counts pages.
  unfoldable pub pages_archived : List Place → ℕ → ℕ → ℕ → ℕ → Step Bool
  unfolding ask page_archived
  pages_archived ps loc_id zero offset n = pure false
  pages_archived ps loc_id (suc fuel) offset n = do
    ids ← ask (λ db. source_asset_ids db loc_id offset page_size)
    if is_empty ids then pure (ltb 0 n) else (do
      done ← page_archived ps ids
      if done
          then pages_archived ps loc_id fuel (offset + page_size) (n + length ids)
          else pure false)

  -- AllArchivedOn: each page but the last has an asset, so that there are no more pages than source files.
  unfoldable pub all_archived_on : Text → Step Bool
  unfolding places query pages_archived
  all_archived_on source_name = do
    ps ← places env
    loc ← query (λ db. location_by_name db source_name)
    λ s. pages_archived ps loc.id (suc (length s.db.source_files)) 0 0 s
