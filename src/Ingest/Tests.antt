-- ===== src/Ingest/Tests.antt =====
-- Flushing and checking at concrete copies, and the theorems on the package ingest applied to them.
use mediamanager.Ingest.Verify.{check_copy}
use mediamanager.Ingest.Check.{Intact, check_copy-Intact}
use mediamanager.Ingest.Owner.{wishes, first_wish, preferred_owner-first_wish}
use mediamanager.Ingest.Pick.{IsSpoolCopy, IsNasCopy}
use mediamanager.Base.{
  ◌≡◌, refl, true, false, ◌||◌, Option, none, some, [], ◌∷◌, if◌then◌else◌, Text, codes, text_eq,
  trim_prefix, lower, split_last, ℕ_eq, Text_eq, Pair_eq, ◌==◌, err, ok,
}
use mediamanager.Base.Int.{pos, ℤ_eq}
use mediamanager.Clock.{zero_time}
use mediamanager.Media.{still, kind_eq, Kind_eq, uses_sparse_id}
use mediamanager.SlashPath
use mediamanager.Identity
use mediamanager.Identity.{Bytes, chunk, hex, be64, hash_range, message, sparse, sparse_file, full}
use mediamanager.Catalog.{
  spool, nas, location_kind_eq, LocationKind_eq, Location, Asset, complete, copy_state_eq,
  CopyState_eq, Copy, JoinedCopy, Role_eq,
}
use mediamanager.Ingest.{nas_size, abs, flush_pair, score, preferred_owner}
use mediamanager.Ingest.Flush.{Verified, flush_pair-Verified}

abbrev disk : Location
disk = record {
  id = 1;
  kind = spool;
  name = codes "disk";
  volume_uuid = [];
  label = [];
  priority = pos 0;
  root = codes "/s";
}

abbrev vault : Location
vault = record disk { id = 2; kind = nas; name = codes "vault" }

abbrev picture : Asset
picture = record {
  id = codes "p";
  scheme = [];
  kind = still;
  size = 2;
  full_sha256 = codes "p";
  orig_name = codes "p.dng";
  capture_time = zero_time;
  rel_path = codes "p.dng";
  project = [];
  pinned = false;
}

abbrev row : Copy
row = record {
  asset_id = codes "p";
  location_id = 1;
  rel_path = codes "p.dng";
  state = complete;
  verified_at = zero_time;
  full_sha256 = [];
}

abbrev on_disk : JoinedCopy
on_disk = record { copy = row; location = disk }

abbrev on_vault : JoinedCopy
on_vault = record { copy = record row { location_id = 2 }; location = vault }

abbrev roots : Location → Option Text
roots l = if l.id == 1 then some (codes "/s") else some (codes "/n")

abbrev read : Text → Option Bytes
read p = if p == codes "/s/p.dng" || p == codes "/n/p.dng" then some (7 ∷ 8 ∷ []) else none

abbrev same_bytes : Bytes → Bytes
same_bytes bs = bs

may_go :
    flush_pair same_bytes read picture (on_disk ∷ on_vault ∷ []) 1 (codes "/s") roots
    ≡ ok (on_disk, on_vault)
unfolding flush_pair mediamanager.Catalog.copy_state_eq mediamanager.Catalog.location_kind_eq
    mediamanager.Base.text_eq SlashPath.join Identity.sparse_file Identity.sparse Identity.message
    Identity.chunk Identity.hash_range Identity.hex Identity.be64 mediamanager.Media.uses_sparse_id
may_go = refl

flush_pair-Verified_example :
    IsSpoolCopy (on_disk ∷ on_vault ∷ []) 1 on_disk
    × ((n : IsNasCopy (on_disk ∷ on_vault ∷ []) 1 roots on_vault) × Verified same_bytes read picture
          (abs (codes "/s") on_disk.copy.rel_path)
          (abs n.root on_vault.copy.rel_path)
          on_disk.copy
          on_vault.copy)
flush_pair-Verified_example =
    flush_pair-Verified same_bytes read picture (on_disk ∷ on_vault ∷ []) 1 (codes "/s") roots
      (on_disk, on_vault) may_go

-- The file was changed on the NAS, and the spool copy stays.
kept_test :
    flush_pair same_bytes
      (λ p. if p == codes "/s/p.dng" then some (7 ∷ 8 ∷ []) else some (7 ∷ []))
      picture
      (on_disk ∷ on_vault ∷ [])
      1
      (codes "/s")
      roots
    ≡ err nas_size
unfolding flush_pair copy_state_eq location_kind_eq text_eq SlashPath.join sparse_file sparse
    message chunk hash_range
kept_test = refl

abbrev hashed : Asset
hashed = record picture { full_sha256 = codes "0708" }

passed : check_copy same_bytes read hashed (codes "/s/p.dng") true ≡ ok (codes "0708")
unfolding check_copy text_eq uses_sparse_id Identity.full hex
passed = refl

check_copy-Intact_example : Intact same_bytes read hashed (codes "/s/p.dng") true (codes "0708")
check_copy-Intact_example =
    check_copy-Intact same_bytes read hashed (codes "/s/p.dng") true (codes "0708") passed

abbrev jpeg : Asset
jpeg = record picture { id = codes "j"; rel_path = codes "p.JPG" }

raw_first : preferred_owner jpeg (picture ∷ []) (codes "xmp") ≡ picture
unfolding preferred_owner mediamanager.Ingest.score text_eq mediamanager.Media.kind_eq
    mediamanager.Base.lower mediamanager.Base.trim_prefix SlashPath.ext mediamanager.Base.split_last
raw_first = refl

preferred_owner-first_wish_example :
    preferred_owner jpeg (picture ∷ []) (codes "xmp")
    ≡ first_wish (wishes (codes "xmp")) jpeg (picture ∷ [])
preferred_owner-first_wish_example = preferred_owner-first_wish jpeg (picture ∷ []) (codes "xmp")
