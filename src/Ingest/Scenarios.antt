-- ===== src/Ingest/Scenarios.antt =====
-- A card, a spool and a NAS with one picture: runs of the steps of package ingest, and the theorems on
-- them applied to these.
use mediamanager.Base.{
  ℕ, ◌^◌, ◌≡◌, refl, true, false, Option, none, some, List, [], ◌∷◌, if◌then◌else◌, All, Text,
  codes, text_eq, split_last, ℕ_eq, Text_eq, Pair_eq, ◌==◌, err, ok,
}
use mediamanager.Base.Int.{pos, ℤ_eq}
use mediamanager.Ingest.Store.{Store, spool_full}
use mediamanager.Ingest.Env.{Env, Place}
use mediamanager.Clock.{Time, zero_time}
use mediamanager.Media.{still, Kind_eq, string, uses_sparse_id}
use mediamanager.SlashPath
use mediamanager.Identity.{Bytes, chunk, hex, be64, hash_range, message, sparse}
use mediamanager.Table.{find, put, Distinct}
use mediamanager.Files.{File, World, call, open_file, change_file, write_at, check_context}
use mediamanager.Linktree
use mediamanager.Config
use mediamanager.Config.{Config, serves, with_defaults, finish, tree}
use mediamanager.Catalog
use mediamanager.Catalog.{
  source, spool, nas, location_kind_eq, LocationKind_eq, Location, Asset, complete, copy_state_eq,
  CopyState_eq, Copy, JoinedCopy, Role_eq, Db, empty, copy_key,
}
use mediamanager.Catalog.Copies.{references, put_copy, joined, nearer, copies}
use mediamanager.Ingest.Transfer.{copy_to, pick_spool, spool_asset, archive_asset}
use mediamanager.Ingest.Transfer.Room.{
  Lacks, FirstRoom, pick_spool-FirstRoom, pick_spool-spool_full,
}
use mediamanager.Ingest.Flushing.{FlushOptions, flush}
use mediamanager.Ingest.Tiers.{held}
use mediamanager.Ingest.Tiers.Copying.{IsCopied, copy_to-IsCopied}
use mediamanager.Ingest.Tiers.Spooling.{Reached}
use mediamanager.Ingest.Tiers.Refine.{ArePlaces, archive_asset-Reached}
use mediamanager.Ingest.Tiers.Spools.{spool_asset-Reached}
use mediamanager.Ingest.Tiers.Runs.{
  spooled, archived, flushed, Runs, none_yet, and_then, Runs-never_lost,
}

abbrev pub same_bytes : Bytes → Bytes
same_bytes bs = bs

abbrev pub noon : Time
noon = record { instant = 1; year = 2026; month = 1; day = 2; stamp = codes "2026" }

abbrev pub card : Location
card = record {
  id = 1;
  kind = source;
  name = codes "c";
  volume_uuid = [];
  label = [];
  priority = pos 0;
  root = codes "/c";
}

abbrev pub disk : Location
disk = record card { id = 2; kind = spool; name = codes "d"; root = codes "/d" }

abbrev pub vault : Location
vault = record card { id = 3; kind = nas; name = codes "v"; root = codes "/v" }

abbrev pub picture : Asset
picture = record {
  id = codes "p";
  scheme = [];
  kind = still;
  size = 2;
  full_sha256 = codes "p";
  orig_name = codes "p.dng";
  capture_time = noon;
  rel_path = codes "p.dng";
  project = [];
  pinned = false;
}

abbrev pub on_card : Copy
on_card = record {
  asset_id = codes "p";
  location_id = 1;
  rel_path = codes "i.dng";
  state = complete;
  verified_at = zero_time;
  full_sha256 = [];
}

abbrev catalogued : Db
catalogued = record empty {
  locations = card ∷ disk ∷ vault ∷ [];
  assets = picture ∷ [];
  copies = on_card ∷ [];
}

abbrev pub shot : File
shot = record { content = 7 ∷ 8 ∷ []; mod_time = noon }

abbrev pub tiers : World
tiers = record {
  files = λ p. if p == codes "/c/i.dng" then some shot else none;
  faults = [];
  cancels = [];
}

abbrev pub store : Store
store = record {
  db = catalogued;
  statement_faults = [];
  world = tiers;
  trees = λ r. record { entries = []; faults = [] };
}

abbrev pub config_of : Location → Config.Location
config_of l = record {
  name = l.name;
  kind = [];
  path = l.root;
  volume_uuid = [];
  priority = pos 0;
  trees = [];
}

abbrev config : Config
config = record {
  catalog = [];
  timezone = [];
  trees = (codes "still", record { subdir = codes "s"; link = codes "/l" }) ∷ [];
  locations = config_of disk ∷ config_of vault ∷ [];
  extensions = record { video_exts = []; audio_exts = []; still_exts = [] };
  concurrency = record {
    per_source = pos 1;
    nas = pos 1;
    nas_during_import = none;
    verify = pos 1;
  };
  temporal = none;
}

abbrev pub env : Env
env = record {
  config = config;
  find_volume = none;
  identify_volume = none;
  is_dir = λ p. true;
  free_space = λ p. some (2 ^ 30);
  now = noon;
}

abbrev place_at : Location → Place
place_at l = record { cfg = config_of l; cat = l; root = l.root; mounted = true }

abbrev pub mounted : List Place
mounted = place_at disk ∷ place_at vault ∷ []

abbrev sources : Location → Option Text
sources l = if l.id == 1 then some (codes "/c") else none

abbrev listed : JoinedCopy
listed = record { copy = on_card; location = card }

abbrev copied_here : Store
copied_here = (copy_to same_bytes env mounted picture (listed ∷ []) sources (place_at disk) store).1

keys : Distinct copy_key catalogued.copies
keys = (tt, tt)

places_there : ArePlaces catalogued mounted
unfolding mediamanager.Table.find
places_there = record { apart = ((refl, tt), (tt, tt)); recorded = (refl, (refl, tt)) }

not_yet : held store.db.copies picture.id (place_at disk).cat.id ≡ false
unfolding held mediamanager.Table.find text_eq
not_yet = refl

copied_now : held copied_here.db.copies picture.id (place_at disk).cat.id ≡ true
unfolding held find copy_to copy_state_eq Config.tree text_eq mediamanager.Media.string
    mediamanager.Catalog.Copies.put_copy mediamanager.Catalog.Copies.references
    mediamanager.Files.open_file SlashPath.join mediamanager.Identity.sparse
    mediamanager.Identity.message mediamanager.Identity.chunk mediamanager.Identity.hash_range
    mediamanager.Copyfile.with_defaults mediamanager.Media.uses_sparse_id
    mediamanager.Copyfile.completed mediamanager.Copyfile.create mediamanager.Copyfile.resume_point
    mediamanager.Files.change_file mediamanager.Copyfile.stream mediamanager.Files.check_context
    mediamanager.Files.write_at mediamanager.Copyfile.finish mediamanager.Copyfile.verify
    mediamanager.Identity.hex mediamanager.Identity.be64 mediamanager.Copyfile.rename
    mediamanager.Catalog.Companions.companions mediamanager.Base.Sorting.sort copies
    mediamanager.Catalog.Copies.joined mediamanager.Table.put mediamanager.Catalog.Copies.nearer
    mediamanager.Catalog.Locations.all_locations location_kind_eq Linktree.set Linktree.readlink
    Linktree.call Linktree.swap Linktree.make_symlink Linktree.remove_entry Linktree.rename
    Linktree.tmp_of SlashPath.dir mediamanager.Base.split_last SlashPath.base
copied_now = refl

copy_to-IsCopied_example :
    IsCopied same_bytes env picture (listed ∷ []) sources (place_at disk) tiers
copy_to-IsCopied_example =
    copy_to-IsCopied same_bytes env mounted picture (listed ∷ []) sources (place_at disk) store keys
      not_yet copied_now

spool_asset-Reached_example :
    Reached store.db.locations
      (held store.db.copies)
      (spool_asset same_bytes env mounted (codes "p") store).1
spool_asset-Reached_example =
    spool_asset-Reached same_bytes env mounted (codes "p") store keys places_there

archive_asset-Reached_example :
    Reached store.db.locations
      (held store.db.copies)
      (archive_asset same_bytes env mounted (codes "p") store).1
archive_asset-Reached_example =
    archive_asset-Reached same_bytes env mounted (codes "p") store keys places_there

abbrev pub all_of_it : FlushOptions
all_of_it = record { free_bytes = 0; older_than = zero_time; dry_run = false }

-- The picture is spooled and archived, and the spool is flushed.
abbrev after_spool : Store
after_spool = (spool_asset same_bytes env mounted (codes "p") store).1

abbrev after_archive : Store
after_archive = (archive_asset same_bytes env mounted (codes "p") after_spool).1

abbrev after_flush : Store
after_flush = (flush same_bytes env mounted (codes "d") all_of_it after_archive).1

all_three : Runs same_bytes env mounted store after_flush
all_three =
    and_then store after_archive after_flush
      (and_then store after_spool after_archive
        (and_then store store after_spool (none_yet store) (spooled store (codes "p")))
        (archived after_spool (codes "p")))
      (flushed after_archive (codes "d") all_of_it)

on_the_card : held store.db.copies (codes "p") 1 ≡ true
unfolding held mediamanager.Table.find mediamanager.Catalog.copy_state_eq mediamanager.Base.text_eq
on_the_card = refl

Runs-never_lost_example : (k : ℕ) × (held after_flush.db.copies (codes "p") k ≡ true)
Runs-never_lost_example =
    Runs-never_lost same_bytes env mounted store after_flush (codes "p") 1 keys places_there
      all_three on_the_card

picks_disk : pick_spool same_bytes env picture mounted ≡ ok (place_at disk)
unfolding pick_spool Catalog.location_kind_eq Config.serves
picks_disk = refl

pick_spool-FirstRoom_example : FirstRoom env picture mounted (place_at disk)
pick_spool-FirstRoom_example =
    pick_spool-FirstRoom same_bytes env picture mounted (place_at disk) picks_disk

abbrev crowded : Env
crowded = record env { free_space = λ p. some 5 }

picks_none : pick_spool same_bytes crowded picture mounted ≡ err spool_full
unfolding pick_spool Catalog.location_kind_eq Config.serves
picks_none = refl

pick_spool-spool_full_example : All (Lacks crowded picture) mounted
pick_spool-spool_full_example = pick_spool-spool_full same_bytes crowded picture mounted picks_none
