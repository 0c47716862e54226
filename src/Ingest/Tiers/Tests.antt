-- ===== src/Ingest/Tiers/Tests.antt =====
-- A picture on a spool and on a NAS, and a flush of the spool, which drops it there.
use mediamanager.Base.{
  ◌≡◌, refl, true, false, ◌||◌, none, some, [], ◌∷◌, if◌then◌else◌, codes, ℕ_eq, Text_eq, Pair_eq,
  ◌==◌,
}
use mediamanager.Base.Int.{ℤ_eq}
use mediamanager.Ingest.Scenarios.{same_bytes, shot, store, env, mounted, all_of_it, on_card}
use mediamanager.Ingest.Store.{Store}
use mediamanager.Catalog.{LocationKind_eq, CopyState_eq, Role_eq, copy_key}
use mediamanager.Table.{Distinct}
use mediamanager.Ingest.Flushing.{flush}
use mediamanager.Ingest.Tiers.{held}
use mediamanager.Ingest.Tiers.Flushes.{Emptied, IsSpoolOf, flush-Emptied}

abbrev on_both : Store
on_both = record store {
  db = record store.db {
    copies =
        record on_card { location_id = 2; rel_path = codes "s/p.dng" }
        ∷ record on_card { location_id = 3; rel_path = codes "s/p.dng" }
        ∷ [];
  };
  world = record store.world {
    files = λ p. if p == codes "/d/s/p.dng" || p == codes "/v/s/p.dng" then some shot else none;
  };
}

abbrev emptied : Store
emptied = (flush same_bytes env mounted (codes "d") all_of_it on_both).1

keys_differ : Distinct copy_key on_both.db.copies
unfolding mediamanager.Base.text_eq
keys_differ = ((refl, tt), (tt, tt))

leaves_spool :
    (held emptied.db.copies (codes "p") 2 ≡ false) × (held emptied.db.copies (codes "p") 3 ≡ true)
unfolding held mediamanager.Table.find flush mediamanager.Base.text_eq
    mediamanager.Catalog.location_kind_eq mediamanager.Base.Sorting.sort
    mediamanager.Catalog.Worklists.has_complete_at mediamanager.Catalog.copy_state_eq
    mediamanager.Catalog.Worklists.has_complete_on_nas mediamanager.Catalog.Copies.joined
    mediamanager.Clock.is_zero mediamanager.Files.check_context mediamanager.Catalog.Copies.copies
    mediamanager.Catalog.Copies.nearer mediamanager.Catalog.Locations.all_locations
    mediamanager.SlashPath.join mediamanager.Identity.sparse_file mediamanager.Identity.sparse
    mediamanager.Identity.message mediamanager.Identity.chunk mediamanager.Identity.hash_range
    mediamanager.Identity.hex mediamanager.Identity.be64 mediamanager.Media.uses_sparse_id
    mediamanager.Ingest.Companions.unlink mediamanager.Files.call
    mediamanager.Catalog.Copies.delete_copy mediamanager.Catalog.Copies.copy_at
    mediamanager.Catalog.Companions.companions mediamanager.Config.tree mediamanager.Media.string
    mediamanager.Linktree.audit mediamanager.Linktree.call
    mediamanager.Catalog.Assets.assets_by_kind mediamanager.Linktree.choose
    mediamanager.Table.remove mediamanager.Linktree.reconcile mediamanager.Table.put
    mediamanager.Linktree.place mediamanager.Linktree.readlink mediamanager.Linktree.swap
    mediamanager.Linktree.make_symlink mediamanager.Linktree.remove_entry
    mediamanager.Linktree.rename mediamanager.Linktree.tmp_of mediamanager.SlashPath.dir
    mediamanager.Base.split_last mediamanager.SlashPath.base mediamanager.Scan.is_junk
    mediamanager.Base.has_prefix mediamanager.Base.has_suffix
leaves_spool = (refl, refl)

flush-Emptied_example :
    Emptied on_both.db.locations (IsSpoolOf mounted (codes "d")) (held on_both.db.copies) emptied
flush-Emptied_example =
    flush-Emptied same_bytes env mounted (codes "d") all_of_it on_both keys_differ
