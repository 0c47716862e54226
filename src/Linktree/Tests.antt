-- ===== src/Linktree/Tests.antt =====
-- Links at concrete trees, and the theorems on linktree/linktree.go applied to them.
use mediamanager.Base.{
  ◌≡◌, refl, subst, ◌≢◌, ◌⊎◌, inl, inr, true, false, Option, some, List, [], ◌∷◌, arith,
  if◌then◌else◌, In, Text, codes, text_eq, text_ltb, has_prefix, has_suffix, split_last, ℕ_eq,
  Text_eq, Pair_eq, ◌==◌, err,
}
use mediamanager.Base.Int.{pos, ℤ_eq}
use mediamanager.Base.Exec.Keeps.{Post}
use mediamanager.Clock.{zero_time}
use mediamanager.SlashPath
use mediamanager.Catalog.{
  spool, nas, LocationKind_eq, Location, complete, mismatch, copy_state_eq, CopyState_eq, Role_eq,
  Db, empty,
}
use mediamanager.Catalog.Copies.{joined, nearer, copies}
use mediamanager.Linktree.{
  tmp_prefix, symlink, regular, State, not_symlink, call, readlink, make_symlink, remove_entry,
  rename, tmp_of, swap, place, set, place_all, in_junk, collect_extra, extra_links, prune_all,
  reconcile, choose,
}
use mediamanager.Linktree.Swap.{node_at, Kept, Installed}
use mediamanager.Linktree.RealFiles.{IsReal, Clear, reconcile-keeps_real}
use mediamanager.Linktree.Place.{set_outcome}
use mediamanager.Linktree.Choice.{Nearest, choose-copies}

abbrev tree : State
tree = record {
  entries = (codes "d/a.mov", symlink (codes "/nas/a.mov")) ∷ (codes "d/b.xmp", regular) ∷ [];
  faults = false ∷ [];
}

tmp_test : tmp_of (codes "d/a.mov") ≡ codes "d/.mm-tmp-a.mov"
unfolding tmp_of SlashPath.join SlashPath.dir mediamanager.Base.split_last text_eq SlashPath.base
tmp_test = refl

apart : codes "d/a.mov" ≢ tmp_of (codes "d/a.mov")
apart e = ground (arith, e, tmp_test)

set_test :
    node_at (set (codes "d/a.mov") (codes "/spool/a.mov") tree).1 (codes "d/a.mov")
    ≡ some (symlink (codes "/spool/a.mov"))
unfolding mediamanager.Table.find set SlashPath.is_abs readlink call text_eq
    mediamanager.Linktree.swap mediamanager.Linktree.make_symlink mediamanager.Linktree.remove_entry
    tmp_of SlashPath.join SlashPath.dir mediamanager.Base.split_last SlashPath.base
    mediamanager.Linktree.rename mediamanager.Table.put mediamanager.Table.remove
    mediamanager.Base.has_prefix mediamanager.Linktree.place SlashPath.clean SlashPath.clean_all
    SlashPath.clean_step SlashPath.elements SlashPath.intercalate SlashPath.skip_empty
    SlashPath.split SlashPath.strip_slashes
set_test = refl

-- A file of the tree is not replaced.
refused_test : (set (codes "d/b.xmp") (codes "/spool/b.xmp") tree).0 ≡ err not_symlink
unfolding set SlashPath.is_abs mediamanager.Linktree.readlink mediamanager.Linktree.call
    mediamanager.Table.find mediamanager.Base.text_eq
refused_test = refl

reconciled_test :
    node_at
      (reconcile
        ((codes "d/a.mov", codes "/spool/a.mov") ∷ (codes "e/c.mov", codes "/spool/c.mov") ∷ [])
        true
        tree).1
      (codes "e/c.mov")
    ≡ some (symlink (codes "/spool/c.mov"))
unfolding mediamanager.Table.find reconcile call mediamanager.Base.Sorting.sort
    mediamanager.Base.text_ltb mediamanager.Linktree.place SlashPath.is_abs readlink text_eq
    mediamanager.Linktree.swap mediamanager.Linktree.make_symlink mediamanager.Linktree.remove_entry
    tmp_of SlashPath.join SlashPath.dir mediamanager.Base.split_last SlashPath.base
    mediamanager.Base.has_prefix mediamanager.Base.has_suffix mediamanager.Base.Sorting.insert
    mediamanager.Linktree.collect_extra mediamanager.Linktree.extra_links
    mediamanager.Linktree.in_junk mediamanager.Linktree.place_all mediamanager.Linktree.prune_all
    mediamanager.Linktree.rename mediamanager.Scan.is_junk SlashPath.clean SlashPath.clean_all
    SlashPath.clean_step SlashPath.elements SlashPath.intercalate SlashPath.skip_empty
    SlashPath.split SlashPath.strip_slashes mediamanager.Table.put mediamanager.Table.remove
reconciled_test = refl

set_outcome_example :
    Post
      (λ changed t.
        ((changed ≡ false)
          × Kept (node_at tree) (tmp_of (codes "d/a.mov")) t
          × (node_at tree (codes "d/a.mov") ≡ some (symlink (codes "/spool/a.mov"))))
        ⊎ ((changed ≡ true) × Installed (node_at tree) (codes "d/a.mov") (codes "/spool/a.mov") t))
      (λ e. Kept (node_at tree) (tmp_of (codes "d/a.mov")))
      (set (codes "d/a.mov") (codes "/spool/a.mov") tree).0
      (set (codes "d/a.mov") (codes "/spool/a.mov") tree).1
set_outcome_example = set_outcome (codes "d/a.mov") (codes "/spool/a.mov") tree apart

abbrev disk : Location
disk = record {
  id = 1;
  kind = spool;
  name = codes "disk";
  volume_uuid = [];
  label = [];
  priority = pos 0;
  root = codes "/spool";
}

abbrev vault : Location
vault = record disk { id = 2; kind = nas; name = codes "vault" }

-- The spool's copy does not verify, and the NAS has a good one.
abbrev db : Db
db = record empty {
  locations = disk ∷ vault ∷ [];
  copies =
      record {
        asset_id = codes "x";
        location_id = 2;
        rel_path = codes "v/a.mov";
        state = complete;
        verified_at = zero_time;
        full_sha256 = [];
      }
      ∷ record {
        asset_id = codes "x";
        location_id = 1;
        rel_path = codes "v/a.mov";
        state = mismatch;
        verified_at = zero_time;
        full_sha256 = [];
      }
      ∷ [];
}

abbrev roots : Location → Option Text
roots l = if l.id == 1 then some (codes "/spool") else some (codes "/nas")

nas_chosen : choose (copies db (codes "x")) roots ≡ some (codes "/nas/v/a.mov")
unfolding choose copies mediamanager.Base.Sorting.sort mediamanager.Catalog.Copies.joined
    mediamanager.Base.text_eq mediamanager.Table.find mediamanager.Catalog.Copies.nearer
    mediamanager.Catalog.copy_state_eq SlashPath.join
nas_chosen = refl

choose-copies_example : Nearest roots (copies db (codes "x")) (codes "/nas/v/a.mov")
choose-copies_example = choose-copies db (codes "x") roots (codes "/nas/v/a.mov") nas_chosen

-- A file stands where a link is wanted.
abbrev blocked : List (Text × Text)
blocked = (codes "d/b.xmp", codes "/spool/b.xmp") ∷ []

tmp_blocked : tmp_of (codes "d/b.xmp") ≡ codes "d/.mm-tmp-b.xmp"
unfolding tmp_of SlashPath.join SlashPath.dir split_last text_eq SlashPath.base
tmp_blocked = refl

not_temporary : has_prefix (SlashPath.base (codes "d/b.xmp")) tmp_prefix ≡ false
unfolding has_prefix SlashPath.base text_eq split_last
not_temporary = refl

real_file : IsReal regular
real_file t e = ground (arith, e)

file_there : node_at tree (codes "d/b.xmp") ≡ some regular
unfolding mediamanager.Table.find text_eq
file_there = refl

blocked-Clear : (w : Text × Text) → In w blocked → Clear (codes "d/b.xmp") regular real_file w.0
blocked-Clear w (inl e) =
    subst (λ (x : Text × Text). Clear (codes "d/b.xmp") regular real_file x.0) e
      (record {
        apart = λ z. ground (arith, z, tmp_blocked);
        not_tmp = λ z. ground (arith, z, tmp_blocked);
      })
blocked-Clear w (inr m) = absurd m

reconcile-keeps_real_example :
    node_at (reconcile blocked false tree).1 (codes "d/b.xmp") ≡ some regular
reconcile-keeps_real_example =
    reconcile-keeps_real blocked tree (codes "d/b.xmp") regular real_file not_temporary
      blocked-Clear file_there
