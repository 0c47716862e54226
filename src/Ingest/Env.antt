-- ===== src/Ingest/Env.antt =====
-- ingest/env.go, and the parts of ingest/source.go and ingest/steps.go that say which roots are there:
-- the configured places of a run, the mounted sources and the link trees.
use mediamanager.Base.Int.{pos, ℤ_eq}
use mediamanager.Base.Exec.{pure, fail, ◌>>=◌}
use mediamanager.Base.{
  ℕ, Bool, true, false, ◌&&◌, not, Option, none, some, List, [], ◌∷◌, ◌++◌, map, if◌then◌else◌,
  keep, any, Text, codes, ℕ_eq, Text_eq, Pair_eq, ◌==◌, Result, err, ok,
}
use mediamanager.Clock.{Time}
use mediamanager.Media.{Kind, video, audio, still, Kind_eq}
use mediamanager.SlashPath
use mediamanager.Table.{find}
use mediamanager.Config
use mediamanager.Config.{Config, Error, not_mounted, tree}
use mediamanager.Catalog.{
  LocationKind, source, spool, nas, LocationKind_eq, Location, Asset, CopyState_eq, Role_eq,
  check_failed,
}
use mediamanager.Catalog.Locations.{location_by_name, upsert_location, all_locations}
use mediamanager.Ingest.Store.{
  Failure, catalog_error, config_error, no_tree, Step, from_result, ask, query, change_with,
}

-- Info of package volume, as far as the steps use it
pub record Volume : Type 0 where
  pub uuid : Text
  pub label : Text

-- Env: the configuration, the functions that find and identify volumes, if they are there, and what
-- the operating system answers: os.Stat on a root, the free space of a root, the time.
pub record Env : Type 0 where
  pub config : Config
  pub find_volume : Option (Text → Result Config.Error Text)
  pub identify_volume : Option (Text → Option Volume)
  pub is_dir : Text → Bool
  pub free_space : Text → Option ℕ
  pub now : Time

-- place
pub record Place : Type 0 where
  pub cfg : Config.Location
  pub cat : Location
  pub root : Text
  pub mounted : Bool

abbrev pub place_id : Place → ℕ
place_id p = p.cat.id

-- Env.identify without its cache: none where there is no function or it fails
abbrev pub identified_by : Option (Text → Option Volume) → Text → Option Volume
identified_by none path = none
identified_by (some f) path = f path

-- The kinds of location, as the configuration writes them.
unfoldable pub location_kind : Text → Option LocationKind
location_kind t =
    if t == codes "spool"
    then some spool
    else if t == codes "nas"
    then some nas
    else if t == codes "source"
    then some source
    else none

-- An absent volume and a missing root directory leave a location unmounted.
abbrev pub mounted_root : Env → Result Config.Error Text → Result Config.Error (Option Text)
mounted_root env (ok root) = ok (if env.is_dir root then some root else none)
mounted_root env (err not_mounted) = ok none
mounted_root env (err e) = err e

-- The volume that the row of a location names: the configured one, or the one that is mounted there.
abbrev pub seen_volume : Env → Config.Location → Option Text → Volume
seen_volume env l none = record { uuid = l.volume_uuid; label = [] }
seen_volume env l (some root) =
    if l.volume_uuid == []
    then (elim (identified_by env.identify_volume root) [
      | none ↦ record { uuid = l.volume_uuid; label = [] }
      | some v ↦ v
    ])
    else record { uuid = l.volume_uuid; label = [] }

abbrev pub root_text : Option Text → Text
root_text none = []
root_text (some r) = r

-- What the row takes over from the one before: an unknown volume, and the root while unmounted.
abbrev pub with_previous : Option Text → Location → Result Failure Location → Location
with_previous root l (err e) = l
with_previous (some r) l (ok prev) =
    if l.volume_uuid == []
    then record l { volume_uuid = prev.volume_uuid; label = prev.label }
    else l
with_previous none l (ok prev) =
    if l.volume_uuid == []
    then record l { volume_uuid = prev.volume_uuid; label = prev.label; root = prev.root }
    else record l { root = prev.root }

abbrev pub checked_kind : Option LocationKind → Step LocationKind
checked_kind none = fail (catalog_error check_failed)
checked_kind (some k) = pure k

-- One round of Env.places.
unfoldable pub place_of : Env → Config.Location → Step Place
unfolding query change_with
place_of env l = do
  root ← from_result config_error (mounted_root env (Config.root l env.find_volume))
  let v = seen_volume env l root
  kind ← checked_kind (location_kind l.kind)
  let row : Location = record {
    id = 0;
    kind = kind;
    name = l.name;
    volume_uuid = v.uuid;
    label = v.label;
    priority = l.priority;
    root = root_text root;
  }
  row' ← (λ s.
      let r = query (λ db. location_by_name db l.name) s in (ok (with_previous root row r.0), r.1))
  cat ← change_with (λ db. ok (upsert_location db row'))
  pure (record {
    cfg = l;
    cat = cat;
    root = root_text root;
    mounted = elim root [ none ↦ false | some r ↦ true ];
  })

unfoldable pub places_of : Env → List Config.Location → Step (List Place)
unfolding place_of
places_of env [] = pure []
places_of env (l ∷ ls) = do p ← place_of env l; ps ← places_of env ls; pure (p ∷ ps)

-- Env.places
unfoldable pub places : Env → Step (List Place)
unfolding places_of
places env = places_of env env.config.locations

-- The map of Env.rootOf: a later place has the word, and a source before all.
unfoldable pub place_root : ℕ → List Place → Option Text → Option Text
place_root id [] r = r
place_root id (p ∷ ps) r = place_root id ps (if p.mounted && p.cat.id == id then some p.root else r)

abbrev pub source_key : ℕ × Text → ℕ
source_key e = e.0

-- Env.rootOf
unfoldable pub root_of_places : List Place → List (ℕ × Text) → Location → Option Text
unfolding place_root
root_of_places ps sources l = elim (find source_key l.id sources) [
  | some e ↦ some e.1
  | none ↦ place_root l.id ps none
]

-- The volume at the root must be the recorded one, where there is a function to tell.
abbrev pub same_volume : Option (Text → Option Volume) → Location → Bool
same_volume none l = true
same_volume (some f) l =
    if l.volume_uuid == []
    then true
    else elim (f l.root) [ none ↦ false | some v ↦ v.uuid == l.volume_uuid ]

-- Whether sourceRoots counts a location in.
unfoldable pub is_source_mounted : Env → Location → Bool
is_source_mounted env l =
    l.kind == source && not (l.root == []) && env.is_dir l.root && same_volume env.identify_volume l

abbrev pub id_and_root : Location → ℕ × Text
id_and_root l = (l.id, l.root)

-- Env.sourceRoots
unfoldable pub source_roots : Env → Step (List (ℕ × Text))
unfolding ask is_source_mounted
source_roots env = do
  locs ← ask all_locations
  pure (map id_and_root (keep (is_source_mounted env) locs))

-- Env.treeRel
unfoldable pub tree_rel : Env → Asset → Result Failure Text
tree_rel env a = elim (tree env.config a.kind) [
  | none ↦ err no_tree
  | some t ↦ ok (SlashPath.join (t.subdir ∷ a.rel_path ∷ []))
]

-- allKinds
abbrev pub all_kinds : List Kind
all_kinds = video ∷ audio ∷ still ∷ []

-- Env.linkRoot
unfoldable pub link_root : Config → Kind → Option Text
link_root c k = elim (tree c k) [ none ↦ none | some t ↦ some t.link ]

-- Env.linkRoots, over the kinds that are left and the roots that were seen
unfoldable pub roots_after : Config → List Text → List Kind → List Text
unfolding link_root
roots_after c seen [] = []
roots_after c seen (k ∷ ks) = elim (link_root c k) [
  | none ↦ roots_after c seen ks
  | some r ↦
      if any (λ x. x == r) seen then roots_after c seen ks else r ∷ roots_after c (r ∷ seen) ks
]

unfoldable pub link_roots : Config → List Text
unfolding roots_after
link_roots c = roots_after c [] all_kinds

-- Env.kindsLinkedAt
unfoldable pub kinds_linked_at : Config → Text → List Kind
unfolding link_root
kinds_linked_at c root =
    keep (λ k. elim (link_root c k) [ none ↦ false | some r ↦ r == root ]) all_kinds

-- sourceLocation: the name of a source.
unfoldable pub source_name : Volume → Text → Text
source_name v root =
    if not (v.uuid == [])
    then codes "source:" ++ v.uuid
    else if not (v.label == [])
    then codes "source:" ++ v.label
    else codes "source:" ++ root

abbrev pub volume_or_none : Option Volume → Volume
volume_or_none none = record { uuid = []; label = [] }
volume_or_none (some v) = v

-- sourceLocation
unfoldable pub source_location : Env → Text → Step Location
unfolding change_with source_name
source_location env root = do
  let v = volume_or_none (identified_by env.identify_volume root)
  change_with (λ db. ok (
      upsert_location db (record {
        id = 0;
        kind = source;
        name = source_name v root;
        volume_uuid = v.uuid;
        label = v.label;
        priority = pos 0;
        root = root;
      })))
