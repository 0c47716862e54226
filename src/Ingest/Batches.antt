-- ===== src/Ingest/Batches.antt =====
-- ingest/import.go: what is done to a list of assets one after another, and what ArchiveAll would do. The
-- times that the copies take and the progress that is reported are left out.
use mediamanager.Base.Exec.{pure, ◌>>=◌, ◌>>◌}
use mediamanager.Base.{
  ℕ, suc, ◌+◌, Bool, true, false, ◌&&◌, not, Option, none, some, List, [], ◌∷◌, ◌++◌, map,
  if◌then◌else◌, length, keep, Text, codes, ℕ_eq, Text_eq, Pair_eq, ◌==◌, Result, err, ok,
}
use mediamanager.Ingest.Store.{Failure, spool_full, Step, ask, on_files, tried, statement}
use mediamanager.Ingest.Env.{Env, Place, places, root_of_places, source_roots, tree_rel}
use mediamanager.Catalog.{nas, LocationKind_eq, Asset, CopyState_eq, JoinedCopy, Role_eq}
use mediamanager.Catalog.Assets.{set_pinned}
use mediamanager.Catalog.Copies.{copies}
use mediamanager.Catalog.Worklists.{needs_archive}
use mediamanager.Ingest.{has_complete, abs}
use mediamanager.Ingest.Scanned.{AssetRef}
use mediamanager.Ingest.Transfer.{CopyResult, spool_asset, archive_asset}
use mediamanager.Ingest.Import.{AssetFailure}
use mediamanager.Files.{File, open_file, check_context}
use mediamanager.Copyfile.{partial_suffix}
use mediamanager.Linktree
use mediamanager.Linktree.{choose}
use mediamanager.Config.{serves}
use mediamanager.Identity

-- SpoolSummary
pub record SpoolSummary : Type 0 where
  pub spooled : ℕ
  pub skipped : ℕ
  pub failures : List AssetFailure
  pub copied : ℕ

-- BatchItem
pub record BatchItem : Type 0 where
  pub id : Text
  pub path : Text
  pub skipped : Bool
  pub spool_was_full : Bool
  pub why : Option Failure
  pub copies_made : ℕ
  pub copied : ℕ

-- The Reason of an ArchiveItem
pub data Reason : Type 0 where
  without_tree : Failure → Reason
  nothing_mounted no_nas_mounted : Reason

-- ArchiveItem
pub record ArchiveItem : Type 0 where
  pub asset : Asset
  pub from : Option Text
  pub to : List Text
  pub resume : ℕ
  pub reason : Option Reason

module _ (sha256 : Identity.Bytes → Identity.Bytes) (env : Env) where
  abbrev pub spool_failed : Text → Text → Failure → SpoolSummary → SpoolSummary
  spool_failed id step e sum = record sum {
    failures = sum.failures ++ (record { asset_id = id; step = step; why = e } ∷ []);
  }

  abbrev pub after_spooling : Text → SpoolSummary → Result Failure CopyResult → SpoolSummary
  after_spooling id sum (err e) = spool_failed id (codes "spool") e sum
  after_spooling id sum (ok r) =
      if r.skipped
      then record sum { skipped = suc sum.skipped }
      else record sum { spooled = suc sum.spooled; copied = sum.copied + r.copied }

  abbrev pub spool_pinned :
      List Place → Text → SpoolSummary → Result Failure Unit → Step SpoolSummary
  spool_pinned ps id sum (err e) s = (ok (spool_failed id (codes "pin") e sum), s)
  spool_pinned ps id sum (ok u) s =
      let r = spool_asset sha256 env ps id s in (ok (after_spooling id sum r.0), r.1)

  -- One round of SpoolAll.
  unfoldable pub spool_one : List Place → Bool → Text → SpoolSummary → Step SpoolSummary
  unfolding statement spool_asset
  spool_one ps pin id sum s =
      let r = (if pin then statement (λ db. set_pinned db id true) else pure tt) s in
      spool_pinned ps id sum r.0 r.1

  unfoldable pub spool_each : List Place → Bool → List AssetRef → SpoolSummary → Step SpoolSummary
  unfolding spool_one
  spool_each ps pin [] sum = pure sum
  spool_each ps pin (r ∷ rs) sum = do sum' ← spool_one ps pin r.id sum; spool_each ps pin rs sum'

  -- SpoolAll
  unfoldable pub spool_everything : List AssetRef → Bool → Step SpoolSummary
  unfolding places spool_each
  spool_everything refs pin = do
    ps ← places env
    spool_each ps pin refs (record { spooled = 0; skipped = 0; failures = []; copied = 0 })

  abbrev pub new_item : AssetRef → BatchItem
  new_item ref = record {
    id = ref.id;
    path = ref.path;
    skipped = false;
    spool_was_full = false;
    why = none;
    copies_made = 0;
    copied = 0;
  }

  -- A cancelled batch ends with the error of the context.
  abbrev pub spool_item : AssetRef → Result Failure CopyResult → Step BatchItem
  spool_item ref (ok r) = pure (record (new_item ref) { skipped = r.skipped; copied = r.copied })
  spool_item ref (err spool_full) = pure (record (new_item ref) { spool_was_full = true })
  spool_item ref (err e) = do on_files check_context; pure (record (new_item ref) { why = some e })

  -- SpoolBatch, at the places
  unfoldable pub spool_batch_at : List Place → List AssetRef → Step (List BatchItem)
  unfolding spool_asset on_files
  spool_batch_at ps [] = pure []
  spool_batch_at ps (ref ∷ refs) = do
    it ← (λ s. let r = spool_asset sha256 env ps ref.id s in spool_item ref r.0 r.1)
    rest ← spool_batch_at ps refs
    pure (it ∷ rest)

  -- SpoolBatch
  unfoldable pub spool_batch : List AssetRef → Step (List BatchItem)
  unfolding places spool_batch_at
  spool_batch refs = do ps ← places env; spool_batch_at ps refs

  -- What the results add to an item of ArchiveBatch.
  unfoldable pub counted : List CopyResult → BatchItem → BatchItem
  counted [] it = it
  counted (r ∷ rs) it =
      if r.skipped
      then counted rs it
      else counted rs
          (record it { copies_made = suc it.copies_made; copied = it.copied + r.copied })

  abbrev pub archived_item : AssetRef → Result Failure (List CopyResult) → Step BatchItem
  archived_item ref (err e) = do
    on_files check_context
    pure (record (new_item ref) { why = some e })
  archived_item ref (ok rs) =
      let it = counted rs (new_item ref) in pure (record it { skipped = it.copies_made == 0 })

  unfoldable pub archive_batch_at : List Place → List AssetRef → Step (List BatchItem)
  unfolding archive_asset on_files counted
  archive_batch_at ps [] = pure []
  archive_batch_at ps (ref ∷ refs) = do
    it ← (λ s. let r = archive_asset sha256 env ps ref.id s in archived_item ref r.0 r.1)
    rest ← archive_batch_at ps refs
    pure (it ∷ rest)

  -- ArchiveBatch
  unfoldable pub archive_batch : List AssetRef → Step (List BatchItem)
  unfolding places archive_batch_at
  archive_batch refs = do ps ← places env; archive_batch_at ps refs

-- The NAS locations that lack a complete copy.
unfoldable pub lacking : List JoinedCopy → Asset → List Place → List Place
unfolding has_complete
lacking cs a ps =
    keep
      (λ (p : Place).
        p.mounted && p.cat.kind == nas && serves p.cfg a.kind && not (has_complete cs p.cat.id))
      ps

abbrev pub size_of : Option File → ℕ
size_of none = 0
size_of (some f) = length f.content

-- The bytes in a partial file on the first of them.
abbrev pub resume_at : Result Failure Text → List Place → Step ℕ
resume_at (err e) ps = pure 0
resume_at (ok rel) [] = pure 0
resume_at (ok rel) (p ∷ ps) = do
  f ← tried (on_files (open_file (abs p.root rel ++ partial_suffix)))
  pure (size_of f)

abbrev pub reason_of : Result Failure Text → Option Text → List Text → Option Reason
reason_of (err e) from to = some (without_tree e)
reason_of (ok rel) none to = some nothing_mounted
reason_of (ok rel) (some f) [] = some no_nas_mounted
reason_of (ok rel) (some f) (t ∷ to) = none

-- One round of ArchivePlan.
unfoldable pub plan_one : Env → List Place → List (ℕ × Text) → Asset → Step ArchiveItem
unfolding ask on_files tree_rel root_of_places lacking Linktree.choose
plan_one env ps sources a = do
  cs ← ask (λ db. copies db a.id)
  let from = Linktree.choose cs (root_of_places ps sources)
  let to = map (λ (p : Place). p.cat.name) (lacking cs a ps)
  resume ← resume_at (tree_rel env a) (lacking cs a ps)
  pure (record {
    asset = a;
    from = from;
    to = to;
    resume = resume;
    reason = reason_of (tree_rel env a) from to;
  })

unfoldable pub plan_each : Env → List Place → List (ℕ × Text) → List Asset → Step (List ArchiveItem)
unfolding plan_one
plan_each env ps sources [] = pure []
plan_each env ps sources (a ∷ more) = do
  it ← plan_one env ps sources a
  rest ← plan_each env ps sources more
  pure (it ∷ rest)

-- ArchivePlan
unfoldable pub archive_plan : Env → Step (List ArchiveItem)
unfolding places source_roots ask plan_each
archive_plan env = do
  ps ← places env
  sources ← source_roots env
  assets ← ask needs_archive
  plan_each env ps sources assets
