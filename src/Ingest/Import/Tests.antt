-- ===== src/Ingest/Import/Tests.antt =====
-- A card whose picture is not in the catalog yet: an import of it, and the theorems on SafeToFormat and
-- AllArchivedOn applied to their ends.
use mediamanager.Ingest.Scenarios.{
  same_bytes, noon, card, disk, vault, on_card, store, config_of, env, mounted,
}
use mediamanager.Ingest.Env.{Env, Place, location_kind, places}
use mediamanager.Ingest.Store.{Store, Failure}
use mediamanager.Ingest.Import.{Summary, archived, import_source, pages_archived}
use mediamanager.Ingest.Import.SafeToFormat.{OnMountedNas, import_source-OnMountedNas}
use mediamanager.Ingest.Import.Pages.{pages_archived-OnMountedNas}
use mediamanager.Scan.{flat, File, is_original, role_of, is_junk, new_classifier, classify}
use mediamanager.Scan.Walk.{regular, Entries, nil, entry, start_of, scan}
use mediamanager.Clock.{Time}
use mediamanager.Catalog.{
  spool, nas, location_kind_eq, LocationKind_eq, copy_state_eq, CopyState_eq, Copy, Role_eq,
  SourceFile, Import,
}
use mediamanager.Base.{
  ◌≡◌, refl, inl, true, List, [], ◌∷◌, All, Text, codes, text_eq, text_ltb, trim_prefix,
  trim_suffix, split_last, ℕ_eq, Text_eq, Pair_eq, Result, ok,
}
use mediamanager.Base.Int.{int_eq, ℤ_eq}
use mediamanager.Ingest.Scanned.{Source}

abbrev on_vault : Copy
on_vault = record on_card { location_id = 3; rel_path = codes "s/p.dng" }

abbrev file_of_card : SourceFile
file_of_card = record {
  location_id = 1;
  path = codes "i.dng";
  size = 2;
  mod_time = noon;
  asset_id = codes "p";
}

abbrev archived_store : Store
archived_store = record store {
  db = record store.db { copies = on_card ∷ on_vault ∷ []; source_files = file_of_card ∷ [] };
}

all_there : (pages_archived same_bytes env mounted 1 2 0 0 archived_store).0 ≡ ok true
unfolding pages_archived mediamanager.Catalog.Sources.source_asset_ids
    mediamanager.Catalog.Sources.first_of_each mediamanager.Base.Sorting.sort
    mediamanager.Catalog.Copies.copies mediamanager.Catalog.Copies.joined mediamanager.Base.text_eq
    mediamanager.Table.find mediamanager.Catalog.Copies.nearer mediamanager.Catalog.copy_state_eq
    mediamanager.Catalog.location_kind_eq
all_there = refl

pages_archived-OnMountedNas_example : OnMountedNas archived_store.db mounted (codes "p")
pages_archived-OnMountedNas_example =
    pages_archived-OnMountedNas mounted archived_store.db same_bytes env 1 2 archived_store refl
      all_there file_of_card (inl refl) refl

abbrev on_the_card : Text → Entries
on_the_card root = entry (codes "i.dng") (regular 2 noon) nil

abbrev taken_at : File → Time
taken_at f = noon

abbrev typed : Env
typed = record env {
  config = record env.config {
    extensions = record env.config.extensions { still_exts = codes "dng" ∷ [] };
    locations =
        record (config_of disk) { kind = codes "spool" }
        ∷ record (config_of vault) { kind = codes "nas" }
        ∷ [];
  };
}

abbrev run : Result Failure (Source × Summary) × Store
run = import_source same_bytes typed taken_at on_the_card (codes "/c") store

abbrev new_source : Source
new_source = record {
  loc = record card { id = 4; name = codes "source:/c" };
  root = codes "/c";
  shape = flat;
  assets = codes "0708" ∷ [];
  new = codes "0708" ∷ [];
  refs = record { id = codes "0708"; path = codes "still/2026/01/02/i.dng"; size = 2 } ∷ [];
  unrecognised = [];
  unrouted = [];
  orphans = [];
}

-- The picture of the card, and the one that was left over.
abbrev outcome : Summary
outcome = record { spooled = 1; archived = 2; no_room = []; failures = []; safe_to_format = true }

imports : run.0 ≡ ok (new_source, outcome)
unfolding mediamanager.Identity.chunk mediamanager.Identity.hex mediamanager.Identity.be64
    mediamanager.Identity.hash_range mediamanager.Identity.message mediamanager.Identity.sparse
    mediamanager.Identity.full mediamanager.Copyfile.with_defaults
    mediamanager.Copyfile.resume_point mediamanager.Copyfile.stream mediamanager.Copyfile.create
    mediamanager.Copyfile.rename mediamanager.Copyfile.verify mediamanager.Copyfile.completed
    mediamanager.Copyfile.finish mediamanager.Media.string mediamanager.Config.check_served
    mediamanager.Config.tree mediamanager.Config.classifier mediamanager.Config.root
    mediamanager.Table.find mediamanager.Table.put mediamanager.Table.remove
    mediamanager.SlashPath.base mediamanager.SlashPath.dir mediamanager.Files.open_file
    mediamanager.Files.change_file mediamanager.Files.write_at mediamanager.Files.check_context
    mediamanager.Catalog.location_kind_eq mediamanager.Catalog.copy_state_eq
    mediamanager.Naming.name_base mediamanager.Naming.file_name mediamanager.Naming.date_path
    mediamanager.Naming.proxy_sidecar_path mediamanager.Scan.is_original mediamanager.Scan.name
    mediamanager.Scan.role_of mediamanager.Scan.is_junk mediamanager.Scan.new_classifier
    mediamanager.Scan.classify mediamanager.Linktree.call mediamanager.Linktree.readlink
    mediamanager.Linktree.make_symlink mediamanager.Linktree.remove_entry
    mediamanager.Linktree.rename mediamanager.Linktree.tmp_of mediamanager.Linktree.swap
    mediamanager.Linktree.set mediamanager.Linktree.reconcile mediamanager.Linktree.audit
    mediamanager.Scan.Walk.start_of mediamanager.Scan.Walk.scan mediamanager.Base.text_eq
    mediamanager.Base.text_ltb mediamanager.Base.trim_prefix mediamanager.Base.trim_suffix
    mediamanager.Base.split_last mediamanager.Base.Int.int_eq mediamanager.Base.Sorting.sort
    mediamanager.Ingest.Import.import_source mediamanager.Ingest.Env.location_kind
    mediamanager.Ingest.Source.attempts mediamanager.Ingest.Source.place_from
    mediamanager.Ingest.Source.place mediamanager.Ingest.Source.identify
    mediamanager.Ingest.Source.find_or_place mediamanager.Catalog.Worklists.has_complete
    mediamanager.Catalog.Worklists.has_complete_on_nas mediamanager.Catalog.Worklists.needs_archive
    mediamanager.Catalog.Companions.companions mediamanager.Catalog.Assets.asset
    mediamanager.Catalog.Assets.put_new mediamanager.Catalog.Assets.put_asset
    mediamanager.Catalog.Assets.assets_by_kind mediamanager.Catalog.Sources.put_source_file
    mediamanager.Catalog.Sources.lookup_source_file mediamanager.Catalog.Locations.next_id
    mediamanager.Catalog.Locations.location_by_name mediamanager.Catalog.Locations.upserted
    mediamanager.Catalog.Locations.upsert_location mediamanager.Catalog.Locations.all_locations
    mediamanager.Catalog.Copies.references mediamanager.Catalog.Copies.put_copy
    mediamanager.Catalog.Copies.joined mediamanager.Catalog.Copies.nearer
    mediamanager.Catalog.Copies.copies
imports = refl

import_source-OnMountedNas_example :
    (ps : List Place) × ((places typed store).0 ≡ ok ps)
    × All (OnMountedNas run.1.db ps) new_source.assets
import_source-OnMountedNas_example =
    import_source-OnMountedNas same_bytes typed taken_at on_the_card (codes "/c") store new_source
      outcome imports refl
