-- ===== src/Ingest/Companions.antt =====
-- ingest/steps.go: the companions of an asset on the tiers. A map that the code ranges over is a list
-- in one of the orders that a run may meet. A failure that the code only logs is dropped here.
use mediamanager.Base.Int.{ℤ, pos, ℤ_eq, int_ltb}
use mediamanager.Base.Exec.{pure, fail, ◌>>=◌, ◌>>◌}
use mediamanager.Base.{
  ℕ, suc, Bool, true, false, ◌&&◌, ◌||◌, not, Option, none, some, List, [], ◌∷◌, ◌++◌, ltb,
  if◌then◌else◌, is_empty, any, Text, ℕ_eq, Text_eq, Pair_eq, ◌==◌, Result, err, ok,
}
use mediamanager.Base.Sorting.{sort}
use mediamanager.Clock.{Time, zero_time}
use mediamanager.Media.{Kind_eq}
use mediamanager.SlashPath
use mediamanager.Identity
use mediamanager.Table.{find}
use mediamanager.Files
use mediamanager.Files.{File, not_exist, exists, Os, update, call, open_file, change_file, write_at}
use mediamanager.Copyfile.{partial_suffix, Options, Copied, rename, copy}
use mediamanager.Ingest.{companion_path, abs}
use mediamanager.Ingest.Store.{Step, ask, on_files, tried, statement}
use mediamanager.Ingest.Env.{Env, Place}
use mediamanager.Config.{tree, root}
use mediamanager.Catalog.{
  source, spool, nas, LocationKind_eq, Location, Asset, CopyState_eq, Role, Role_eq, regenerable,
  Companion, location_id_key,
}
use mediamanager.Catalog.Locations.{all_locations}
use mediamanager.Catalog.Companions.{put_companion, delete_companion, companions}

-- companionKey
abbrev pub CompanionKey : Type 0
CompanionKey = Role × Text

-- bestCompanions: the rank of a location, which may be missing
unfoldable pub rank : Option Location → ℕ
rank none = 2
rank (some l) = elim l.kind [ spool ↦ 0 | nas ↦ 1 | source ↦ 2 ]

abbrev pub priority_of : Option Location → ℤ
priority_of none = pos 0
priority_of (some l) = l.priority

abbrev pub location_of : List Location → Companion → Option Location
location_of locs c = find location_id_key c.location_id locs

unfoldable pub ranks_before : List Location → Companion → Companion → Bool
unfolding rank
ranks_before locs c d =
    let l = location_of locs c in
    let m = location_of locs d in
    ltb (rank l) (rank m) || (rank l == rank m && int_ltb (priority_of l) (priority_of m))

abbrev pub companion_root : (Location → Option Text) → Option Location → Option Text
companion_root root_of none = none
companion_root root_of (some l) = root_of l

abbrev pub key_of : CompanionKey × Text → CompanionKey
key_of e = e.0

-- The loop of bestCompanions: the first of each key whose location has a root.
unfoldable pub best_from :
    List Location
    → (Location → Option Text)
    → List CompanionKey
    → List Companion
    → List (CompanionKey × Text)
best_from locs root_of done [] = []
best_from locs root_of done (c ∷ cs) =
    let k : CompanionKey = (c.role, c.ext) in
    let rest = best_from locs root_of done cs in
    let after = best_from locs root_of (k ∷ done) cs in
    if any (λ d. d == k) done then rest else elim (companion_root root_of (location_of locs c)) [
      | none ↦ rest
      | some root ↦ (k, abs root c.rel_path) ∷ after
    ]

-- bestCompanions
unfoldable pub best_companions :
    List Companion → List Location → (Location → Option Text) → List (CompanionKey × Text)
unfolding ranks_before best_from
best_companions comps locs root_of = best_from locs root_of [] (sort (ranks_before locs) comps)

-- os.WriteFile: an existing file is emptied first.
unfoldable pub write_file : Text → List ℕ → Os Unit
write_file path bytes = do
  change_file path (some (record { content = []; mod_time = zero_time }))
  write_at path 0 bytes

abbrev pub stamped : Text → Option File → Time → Os Unit
stamped path none t w = (ok tt, w)
stamped path (some f) t w = change_file path (some (record f { mod_time = t })) w

abbrev pub removed : Text → Option File → Os Unit
removed path none w = (err Files.not_exist, w)
removed path (some f) w = (ok tt, record w { files = Files.update w.files path none })

-- os.Remove
unfoldable pub unlink : Text → Os Unit
unlink path = do call; (λ w. removed path (w.files path) w)

abbrev pub or_absent : Result Files.Error Unit → Os Unit
or_absent (ok u) = pure tt
or_absent (err Files.not_exist) = pure tt
or_absent (err e) = fail e

-- os.Remove, where an absent file is none to remove
unfoldable pub remove_if_there : Text → Os Unit
remove_if_there path w = or_absent (unlink path w).0 (unlink path w).1

-- `_ = f()`
abbrev pub ignoring : {A : Type 0} → Os A → Os Unit
ignoring m w = (ok tt, (m w).1)

module _ (sha256 : Identity.Bytes → Identity.Bytes) where
  -- identity.FullFile
  unfoldable pub hash_file : Text → Os Text
  hash_file path = do f ← open_file path; call; pure (Identity.full sha256 f.content)

  -- Whether dst is there with the wanted hash.
  abbrev pub has_hash : Text → Result Files.Error Text → Bool
  has_hash want (ok have) = have == want
  has_hash want (err e) = false

  -- replaceIfDifferent: the bytes go through a temporary name.
  unfoldable pub replace_if_different : Text → Text → Os Bool
  unfolding hash_file write_file
  replace_if_different src dst = do
    want ← hash_file src
    same ← (λ w. (ok (has_hash want (hash_file dst w).0), (hash_file dst w).1))
    if same then pure false else (do
      call
      f ← open_file src
      call
      let tmp = dst ++ partial_suffix
      write_file tmp f.content
      ignoring (do call; (λ w. stamped tmp (w.files tmp) f.mod_time w))
      rename tmp dst
      pure true)

  abbrev pub plain : Options
  plain = record { expect_id = []; buffer_size = 0; hash_resumed_prefix = false }

  -- Whether a proxy was written: it is never replaced.
  unfoldable pub write_proxy : Text → Text → Os Bool
  unfolding copy
  write_proxy src dst = do r ← copy sha256 src dst plain; pure (not r.already_complete)

  -- The hash that is recorded: empty when the file cannot be read.
  abbrev pub hash_or_empty : Option Text → Text
  hash_or_empty none = []
  hash_or_empty (some t) = t

  unfoldable pub record_companion : Asset → ℕ → CompanionKey → Text → Text → Step Unit
  unfolding on_files statement hash_file
  record_companion a location_id key rel dst = do
    sum ← tried (on_files (hash_file dst))
    statement (λ db. put_companion db (record {
      asset_id = a.id;
      location_id = location_id;
      role = key.0;
      ext = key.1;
      rel_path = rel;
      sha256 = hash_or_empty sum;
    }))

  module _ (env : Env) where
    -- The subdirectory of an asset's kind: empty where no tree is configured
    abbrev pub subdir_of : Asset → Text
    subdir_of a = elim (tree env.config a.kind) [ none ↦ [] | some t ↦ t.subdir ]

    abbrev pub succeeded : Option (Unit {0}) → Bool
    succeeded none = false
    succeeded (some u) = true

    abbrev pub recorded_if : Asset → ℕ → CompanionKey → Text → Text → Option Bool → Step Bool
    recorded_if a id key rel dst (some true) = do
      r ← tried (record_companion a id key rel dst)
      pure (succeeded r)
    recorded_if a id key rel dst other = pure false

    -- One round of syncCompanions: whether it wrote a companion.
    unfoldable pub sync_one : Asset → Place → Bool → CompanionKey × Text → Step Bool
    unfolding record_companion write_proxy replace_if_different
    sync_one a dest sidecars_only (key, src) =
        if sidecars_only && regenerable key.0 then pure false else (do
          let rel = SlashPath.join (subdir_of a ∷ companion_path a.rel_path key.0 key.1 ∷ [])
          let dst = abs dest.root rel
          wrote ← tried (
              on_files
                (if regenerable key.0 then write_proxy src dst else replace_if_different src dst))
          recorded_if a dest.cat.id key rel dst wrote)

    unfoldable pub sync_all : Asset → Place → Bool → List (CompanionKey × Text) → Step ℕ
    unfolding sync_one
    sync_all a dest sidecars_only [] = pure 0
    sync_all a dest sidecars_only (c ∷ cs) = do
      wrote ← sync_one a dest sidecars_only c
      n ← sync_all a dest sidecars_only cs
      pure (if wrote then suc n else n)

    abbrev pub listed : {A : Type 0} → Option (List A) → List A
    listed none = []
    listed (some xs) = xs

    -- Any place but dest itself.
    abbrev pub elsewhere : Place → (Location → Option Text) → Location → Option Text
    elsewhere dest root_of l = if l.id == dest.cat.id then none else root_of l

    -- syncCompanions
    unfoldable pub sync_companions : Asset → (Location → Option Text) → Place → Bool → Step ℕ
    unfolding ask sync_all best_companions
    sync_companions a root_of dest sidecars_only = do
      comps ← tried (ask (λ db. companions db a.id))
      if is_empty (listed comps) then pure 0 else (do
        locs ← tried (ask all_locations)
        sync_all a dest sidecars_only
            (best_companions (listed comps) (listed locs) (elsewhere dest root_of)))

    -- A file that is already there, whole or not, is left.
    abbrev pub copied_or_there : Result Files.Error Copied → Os Unit
    copied_or_there (ok r) = pure tt
    copied_or_there (err Files.exists) = pure tt
    copied_or_there (err e) = fail e

    -- The companion's file on the NAS: a proxy is copied if absent, a sidecar is made to match.
    unfoldable pub secured : Companion → Text → Text → Os Unit
    unfolding copy replace_if_different
    secured c src dst =
        if regenerable c.role
        then (λ w. copied_or_there (copy sha256 src dst plain w).0 (copy sha256 src dst plain w).1)
        else (do changed ← replace_if_different src dst; pure tt)

    abbrev pub recorded_there : Asset → Companion → ℕ → Text → Text → Option (Unit {0}) → Step Bool
    recorded_there a c id rel dst none = pure false
    recorded_there a c id rel dst (some u) = do
      r ← tried (record_companion a id (c.role, c.ext) rel dst)
      pure (succeeded r)

    -- One round of companionSafeOnNAS, on a NAS with a root: whether the companion is there now.
    unfoldable pub secure_at : Asset → Companion → Text → Location → Text → Step Bool
    unfolding secured record_companion on_files
    secure_at a c src l root = do
      let rel = SlashPath.join (subdir_of a ∷ companion_path a.rel_path c.role c.ext ∷ [])
      let dst = abs root rel
      there ← tried (on_files (secured c src dst))
      recorded_there a c l.id rel dst there

    abbrev pub at_root : Step Bool → (Text → Step Bool) → Option Text → Step Bool
    at_root rest here none = rest
    at_root rest here (some root) = do done ← here root; if done then pure true else rest

    -- companionSafeOnNAS
    unfoldable pub safe_on_nas :
        Asset → Companion → Text → (Location → Option Text) → List Location → Step Bool
    unfolding secure_at
    safe_on_nas a c src root_of [] = pure false
    safe_on_nas a c src root_of (l ∷ ls) =
        let rest = safe_on_nas a c src root_of ls in
        if not (l.kind == nas) then rest else at_root rest (secure_at a c src l) (root_of l)

    abbrev pub dropped : Asset → ℕ → Companion → Option (Unit {0}) → Step Unit
    dropped a id c none = pure tt
    dropped a id c (some u) = do
      r ← tried (statement (λ db. delete_companion db a.id id c.role c.ext))
      pure tt

    -- One round of dropSpoolCompanions.
    unfoldable pub drop_one :
        Asset → Place → (Location → Option Text) → List Location → Companion → Step Unit
    unfolding safe_on_nas remove_if_there on_files statement
    drop_one a spool_place root_of locs c =
        let src = abs spool_place.root c.rel_path in
        if not (c.location_id == spool_place.cat.id) then pure tt else (do
          safe ← safe_on_nas a c src root_of locs
          if not safe then pure tt else (do
            gone ← tried (on_files (remove_if_there src))
            dropped a spool_place.cat.id c gone))

    unfoldable pub drop_all_of :
        Asset → Place → (Location → Option Text) → List Location → List Companion → Step Unit
    unfolding drop_one
    drop_all_of a spool_place root_of locs [] = pure tt
    drop_all_of a spool_place root_of locs (c ∷ cs) = do
      drop_one a spool_place root_of locs c
      drop_all_of a spool_place root_of locs cs

    -- dropSpoolCompanions
    unfoldable pub drop_spool_companions : Asset → Place → (Location → Option Text) → Step Unit
    unfolding drop_all_of
    drop_spool_companions a spool_place root_of = do
      comps ← tried (ask (λ db. companions db a.id))
      locs ← tried (ask all_locations)
      drop_all_of a spool_place root_of (listed locs) (listed comps)
