-- ===== src/Ingest/Source/Tests.antt =====
-- A new picture on a card, and the theorems on its registration applied to it.
use mediamanager.Base.{
  ◌≡◌, refl, true, false, [], ◌∷◌, Text, codes, text_eq, to_lower, lower, split_last, ℕ_eq, Text_eq,
  Pair_eq, ok,
}
use mediamanager.Clock.{Time, is_zero, equal}
use mediamanager.Media.{still, kind_eq, Kind_eq, uses_sparse_id}
use mediamanager.SlashPath
use mediamanager.Scan.{original, File}
use mediamanager.Naming.{
  split_ext, join_ext, is_safe, safe_char, sanitize, parse_base, parse, name_base, strip_id,
  file_name, date_path, with_suffix,
}
use mediamanager.Catalog.{LocationKind_eq, Asset, CopyState_eq, Role_eq}
use mediamanager.Ingest.Store.{Store, ask, query, change_with, on_files, statement}
use mediamanager.Ingest.Source.{
  attempts, candidate, place_from, place, full_file, sparse_of, identify, find_or_place, register,
}
use mediamanager.Ingest.Source.Placed.{Placed, place-Placed}
use mediamanager.Ingest.Source.Registered.{IsRegistered, register-IsRegistered, register-again}
use mediamanager.Ingest.Scenarios.{same_bytes, noon, card, picture, store}

-- Another asset has the base name already.
abbrev first_base : Text
first_base = codes "2026/01/02/p.dng"

abbrev full_store : Store
full_store = record store {
  db = record store.db { assets = record picture { rel_path = first_base } ∷ [] };
}

abbrev newcomer : Asset
newcomer = record picture { id = codes "q"; rel_path = [] }

base_name :
    date_path (record {
      kind = newcomer.kind;
      orig_name = newcomer.orig_name;
      id = newcomer.id;
      capture_time = newcomer.capture_time;
    })
    ≡ ok first_base
unfolding date_path mediamanager.Naming.file_name mediamanager.Base.text_eq
    mediamanager.Naming.join_ext mediamanager.Naming.sanitize mediamanager.Naming.split_ext
    mediamanager.Base.split_last mediamanager.Naming.name_base
base_name = refl

gets_suffix : (place newcomer full_store).0 ≡ ok (codes "2026/01/02/p_1.dng")
unfolding place date_path mediamanager.Naming.file_name mediamanager.Base.text_eq
    mediamanager.Ingest.Source.place_from attempts mediamanager.Catalog.Assets.put_asset
    mediamanager.Naming.join_ext mediamanager.Naming.sanitize mediamanager.Naming.split_ext
    mediamanager.Base.split_last mediamanager.Naming.name_base mediamanager.Table.find
    mediamanager.Catalog.Assets.put_new mediamanager.Naming.with_suffix
gets_suffix = refl

place-Placed_example :
    Placed newcomer first_base 0 attempts full_store.db
      (place newcomer full_store).1.db
      (codes "2026/01/02/p_1.dng")
place-Placed_example =
    place-Placed newcomer full_store first_base (codes "2026/01/02/p_1.dng") base_name gets_suffix

abbrev taken_at : File → Time
taken_at f = noon

abbrev new_file : File
new_file = record {
  rel = codes "i.dng";
  abs = codes "/c/i.dng";
  kind = still;
  ext = codes "dng";
  size = 2;
  mod_time = noon;
  role = original;
}

-- The picture's own hash is its id.
abbrev registered_asset : Asset
registered_asset = record picture {
  id = codes "0708";
  scheme = codes "sha256";
  full_sha256 = codes "0708";
  orig_name = codes "i.dng";
  rel_path = codes "2026/01/02/i.dng";
}

abbrev once : Store
once = (register same_bytes taken_at card new_file store).1

registers : (register same_bytes taken_at card new_file store).0 ≡ ok (registered_asset, true)
unfolding register mediamanager.Catalog.Sources.lookup_source_file mediamanager.Table.find
    mediamanager.Ingest.Source.identify mediamanager.Media.uses_sparse_id
    mediamanager.Files.open_file mediamanager.Base.text_eq mediamanager.Ingest.Source.find_or_place
    mediamanager.Catalog.Assets.asset mediamanager.Identity.full mediamanager.Identity.hex place
    date_path mediamanager.Naming.file_name mediamanager.Scan.name SlashPath.base
    mediamanager.Base.split_last mediamanager.Base.lower mediamanager.Base.to_lower
    mediamanager.Catalog.Assets.put_asset mediamanager.Catalog.Assets.put_known
    mediamanager.Catalog.Assets.put_new mediamanager.Catalog.Copies.put_copy
    mediamanager.Catalog.Copies.references mediamanager.Catalog.Sources.put_source_file
    mediamanager.Clock.equal mediamanager.Clock.is_zero mediamanager.Files.call
    mediamanager.Identity.be64 mediamanager.Identity.chunk mediamanager.Identity.hash_range
    mediamanager.Identity.hex_digit mediamanager.Identity.is_hex mediamanager.Identity.message
    mediamanager.Identity.sparse mediamanager.Identity.sparse_file mediamanager.Identity.valid
    attempts mediamanager.Ingest.Source.candidate mediamanager.Ingest.Source.full_file
    mediamanager.Ingest.Source.place_from mediamanager.Ingest.Source.sparse_of
    mediamanager.Ingest.Store.ask mediamanager.Ingest.Store.change_with
    mediamanager.Ingest.Store.on_files mediamanager.Ingest.Store.query
    mediamanager.Ingest.Store.statement mediamanager.Media.kind_eq mediamanager.Naming.is_safe
    mediamanager.Naming.join_ext mediamanager.Naming.name_base mediamanager.Naming.parse
    mediamanager.Naming.parse_base mediamanager.Naming.safe_char mediamanager.Naming.sanitize
    mediamanager.Naming.split_ext mediamanager.Naming.strip_id mediamanager.Naming.with_suffix
    SlashPath.clean SlashPath.clean_all SlashPath.clean_step SlashPath.decimal
    SlashPath.decimal_fuel SlashPath.elements SlashPath.intercalate SlashPath.is_abs SlashPath.join
    SlashPath.padded SlashPath.skip_empty SlashPath.split SlashPath.strip_slashes SlashPath.zeros
    mediamanager.Table.put
registers = refl

registers_again : (register same_bytes taken_at card new_file once).0 ≡ ok (registered_asset, false)
unfolding register mediamanager.Catalog.Sources.lookup_source_file mediamanager.Table.find
    mediamanager.Ingest.Source.identify mediamanager.Media.uses_sparse_id
    mediamanager.Files.open_file mediamanager.Base.text_eq mediamanager.Ingest.Source.find_or_place
    mediamanager.Catalog.Assets.asset mediamanager.Identity.full mediamanager.Identity.hex place
    date_path mediamanager.Naming.file_name mediamanager.Scan.name SlashPath.base
    mediamanager.Base.split_last mediamanager.Base.lower mediamanager.Base.to_lower
    mediamanager.Catalog.Assets.put_asset mediamanager.Catalog.Assets.put_known
    mediamanager.Catalog.Assets.put_new mediamanager.Catalog.Copies.put_copy
    mediamanager.Catalog.Copies.references mediamanager.Catalog.Sources.put_source_file
    mediamanager.Clock.equal mediamanager.Clock.is_zero mediamanager.Files.call
    mediamanager.Identity.be64 mediamanager.Identity.chunk mediamanager.Identity.hash_range
    mediamanager.Identity.hex_digit mediamanager.Identity.is_hex mediamanager.Identity.message
    mediamanager.Identity.sparse mediamanager.Identity.sparse_file mediamanager.Identity.valid
    attempts mediamanager.Ingest.Source.candidate mediamanager.Ingest.Source.full_file
    mediamanager.Ingest.Source.place_from mediamanager.Ingest.Source.sparse_of
    mediamanager.Ingest.Store.ask mediamanager.Ingest.Store.change_with
    mediamanager.Ingest.Store.on_files mediamanager.Ingest.Store.query
    mediamanager.Ingest.Store.statement mediamanager.Media.kind_eq mediamanager.Naming.is_safe
    mediamanager.Naming.join_ext mediamanager.Naming.name_base mediamanager.Naming.parse
    mediamanager.Naming.parse_base mediamanager.Naming.safe_char mediamanager.Naming.sanitize
    mediamanager.Naming.split_ext mediamanager.Naming.strip_id mediamanager.Naming.with_suffix
    SlashPath.clean SlashPath.clean_all SlashPath.clean_step SlashPath.decimal
    SlashPath.decimal_fuel SlashPath.elements SlashPath.intercalate SlashPath.is_abs SlashPath.join
    SlashPath.padded SlashPath.skip_empty SlashPath.split SlashPath.strip_slashes SlashPath.zeros
    mediamanager.Table.put
registers_again = refl

register-IsRegistered_example :
    IsRegistered same_bytes taken_at card new_file registered_asset once.db
register-IsRegistered_example =
    register-IsRegistered same_bytes taken_at card new_file store registered_asset true registers

register-again_example : (false ≡ false) × (registered_asset.id ≡ registered_asset.id)
register-again_example =
    register-again same_bytes taken_at card new_file store once registered_asset registered_asset
      true false registers refl registers_again
