-- ===== src/Config.antt =====
-- config/config.go: the settings after the YAML is decoded, with their defaults and their checks.
-- The maps `trees` are tables, in the order in which `range` goes over them in the run.
pub mod Checked
pub mod Limits
pub mod Tests
use mediamanager.Base.Sorting.{sort}
use mediamanager.Base.Int.{ℤ, pos, ℤ_eq, int_ltb}
use mathlib.Core.Option
use mediamanager.Base.{
  ℕ, Bool, ◌&&◌, ◌||◌, not, Option, none, some, List, [], ◌∷◌, map, if◌then◌else◌, drop, keep,
  is_empty, any, first, Text, codes, has_prefix, contains, ◌==◌, ℕ_eq, Text_eq, Pair_eq, Result, ok,
  err, ◌>>=◌,
}
use mediamanager.Media.{Kind, unknown, video, audio, still, Kind_eq, string}
use mediamanager.SlashPath
use mediamanager.Scan.{
  Classifier, new_classifier, default_video_exts, default_audio_exts, default_still_exts,
}
use mediamanager.Table.{find}

-- Temporal
pub record Temporal : Type 0 where
  pub address : Text
  pub name_space : Text
  pub task_queue : Text

-- Tree
pub record Tree : Type 0 where
  pub subdir : Text
  pub link : Text

-- Location
pub record Location : Type 0 where
  pub name : Text
  pub kind : Text
  pub path : Text
  pub volume_uuid : Text
  pub priority : ℤ
  pub trees : List Text

-- Extensions
pub record Extensions : Type 0 where
  pub video_exts : List Text
  pub audio_exts : List Text
  pub still_exts : List Text

-- Concurrency
pub record Concurrency : Type 0 where
  pub per_source : ℤ
  pub nas : ℤ
  pub nas_during_import : Option ℤ
  pub verify : ℤ

-- Config
pub record Config : Type 0 where
  pub catalog : Text
  pub timezone : Text
  pub trees : List (Text × Tree)
  pub locations : List Location
  pub extensions : Extensions
  pub concurrency : Concurrency
  pub temporal : Option Temporal

-- What the run's environment tells: os.UserHomeDir, XDG_CONFIG_HOME, XDG_DATA_HOME, and the zones
-- that time.LoadLocation knows.
pub record Env : Type 0 where
  pub home : Option Text
  pub xdg_config_home : Text
  pub xdg_data_home : Text
  pub zone_known : Text → Bool

pub data Error : Type 0 where
  timezone_unknown no_trees tree_kind tree_subdir tree_link_missing tree_link_relative : Error
  no_locations location_name location_duplicate location_kind location_path : Error
  location_relative location_absolute location_tree_kind location_tree_missing tree_without_nas :
      Error
  no_resolver not_mounted : Error

-- kindOf
unfoldable pub kind_of : Text → Kind
kind_of n =
    if n == codes "video"
    then video
    else if n == codes "audio"
    then audio
    else if n == codes "still"
    then still
    else unknown

-- Location.Serves
unfoldable pub serves : Location → Kind → Bool
unfolding kind_of
serves l k = is_empty l.trees || any (λ t. kind_of t == k) l.trees

-- Concurrency.NASWhileImporting
unfoldable pub nas_while_importing : Concurrency → ℤ
nas_while_importing c =
    let n : ℤ = elim c.nas_during_import [ none ↦ pos 1 | some m ↦ m ] in
    let at_least = if int_ltb n (pos 0) then pos 0 else n in
    if int_ltb c.nas at_least then c.nas else at_least

-- expand
unfoldable pub expand : Env → Text → Text
expand env p =
    if p == codes "~" || has_prefix p (codes "~/")
    then (elim env.home [ none ↦ p | some h ↦ SlashPath.join (h ∷ drop 1 p ∷ []) ])
    else p

-- configHome, dataHome, DefaultPath
unfoldable pub config_home : Env → Text
unfolding expand
config_home env =
    if env.xdg_config_home == [] then expand env (codes "~/.config") else env.xdg_config_home

unfoldable pub data_home : Env → Text
unfolding expand
data_home env =
    if env.xdg_data_home == [] then expand env (codes "~/.local/share") else env.xdg_data_home

unfoldable pub default_path : Env → Text
unfolding config_home
default_path env =
    SlashPath.join (config_home env ∷ codes "mediamanager" ∷ codes "config.yaml" ∷ [])

-- Config.Location: whether the zone is there.
unfoldable pub zone_ok : Env → Config → Bool
zone_ok env c = c.timezone == codes "Local" || env.zone_known c.timezone

abbrev pub or_default : Text → Text → Text
or_default s d = if s == [] then d else s

abbrev pub at_least_one : ℤ → ℕ → ℤ
at_least_one n d = if int_ltb (pos 0) n then n else pos d

-- The first part of finish: what an absent setting stands for.
unfoldable pub with_defaults : Env → Config → Config
unfolding data_home expand
with_defaults env c = record c {
  catalog = expand env (
      or_default c.catalog
        (SlashPath.join (data_home env ∷ codes "mediamanager" ∷ codes "catalog.db" ∷ [])));
  timezone = or_default c.timezone (codes "Local");
  temporal = elim c.temporal [
    | none ↦ none
    | some t ↦ some (record {
      address = or_default t.address (codes "localhost:7233");
      name_space = or_default t.name_space (codes "default");
      task_queue = or_default t.task_queue (codes "mediamanager");
    })
  ];
  concurrency = record {
    per_source = at_least_one c.concurrency.per_source 1;
    nas = at_least_one c.concurrency.nas 3;
    nas_during_import = c.concurrency.nas_during_import;
    verify = at_least_one c.concurrency.verify 4;
  };
  extensions = record {
    video_exts =
        if is_empty c.extensions.video_exts then default_video_exts else c.extensions.video_exts;
    audio_exts =
        if is_empty c.extensions.audio_exts then default_audio_exts else c.extensions.audio_exts;
    still_exts =
        if is_empty c.extensions.still_exts then default_still_exts else c.extensions.still_exts;
  };
}

-- One round of finish's loop over the trees.
unfoldable pub finish_tree : Env → Text × Tree → Result Error (Text × Tree)
unfolding kind_of expand
finish_tree env (n, t) =
    let subdir = or_default t.subdir n in
    let link = expand env t.link in
    if kind_of n == unknown
    then err tree_kind
    else if contains subdir 47 || subdir == codes ".."
    then err tree_subdir
    else if t.link == []
    then err tree_link_missing
    else if not (SlashPath.is_abs link)
    then err tree_link_relative
    else ok (n, record { subdir = subdir; link = link })

unfoldable pub finish_trees : Env → List (Text × Tree) → Result Error (List (Text × Tree))
unfolding finish_tree
finish_trees env [] = ok []
finish_trees env (t ∷ ts) = do t' ← finish_tree env t; ts' ← finish_trees env ts; ok (t' ∷ ts')

-- The inner loop over a location's trees entries.
unfoldable pub check_entries : List (Text × Tree) → List Text → Result Error Unit
unfolding kind_of
check_entries trees [] = ok tt
check_entries trees (t ∷ ts) =
    let rest = check_entries trees ts in
    if kind_of t == unknown
    then err location_tree_kind
    else if not (any (λ (u : Text × Tree). u.0 == t) trees)
    then err location_tree_missing
    else rest

-- One round of finish's loop over the locations.
unfoldable pub finish_location :
    Env → List (Text × Tree) → List Text → Location → Result Error Location
unfolding expand check_entries
finish_location env trees seen l =
    let path = expand env l.path in
    if l.name == []
    then err location_name
    else if any (λ n. n == l.name) seen
    then err location_duplicate
    else if not (l.kind == codes "spool") && not (l.kind == codes "nas")
    then err location_kind
    else if l.path == [] && l.volume_uuid == []
    then err location_path
    else if l.volume_uuid == [] && not (SlashPath.is_abs path)
    then err location_relative
    else if not (l.volume_uuid == []) && SlashPath.is_abs path
    then err location_absolute
    else check_entries trees l.trees >>= λ u. ok (record l { path = path })

unfoldable pub finish_locations :
    Env → List (Text × Tree) → List Text → List Location → Result Error (List Location)
unfolding finish_location
finish_locations env trees seen [] = ok []
finish_locations env trees seen (l ∷ ls) = do
  l' ← finish_location env trees seen l
  ls' ← finish_locations env trees (l.name ∷ seen) ls
  ok (l' ∷ ls')

-- The last loop of finish: every tree has a NAS.
unfoldable pub check_served : List Location → List (Text × Tree) → Result Error Unit
unfolding serves kind_of
check_served ls [] = ok tt
check_served ls (t ∷ ts) =
    let rest = check_served ls ts in
    if any (λ (l : Location). serves l (kind_of t.0) && l.kind == codes "nas") ls
    then rest
    else err tree_without_nas

abbrev pub priority_ltb : Location → Location → Bool
priority_ltb l m = int_ltb l.priority m.priority

-- Config.finish
unfoldable pub finish : Env → Config → Result Error Config
unfolding with_defaults zone_ok
finish env given = do
  let c = with_defaults env given
  if not (zone_ok env c)
      then err timezone_unknown
      else if is_empty c.trees
      then err no_trees
      else (do
        trees ← finish_trees env c.trees
        if is_empty c.locations then err no_locations else (do
          locations ← finish_locations env trees [] c.locations
          u ← check_served locations trees
          ok (record c { trees = trees; locations = sort priority_ltb locations })))

-- Config.Tree
unfoldable pub tree : Config → Kind → Option Tree
tree c k =
    Option.map (λ (t : Text × Tree). t.1) (first (λ (t : Text × Tree). t.0 == string k) c.trees)

-- Config.byKind, Config.Spools, Config.NAS
unfoldable pub by_kind : Config → Text → List Location
by_kind c kind = keep (λ (l : Location). l.kind == kind) c.locations

unfoldable pub spools : Config → List Location
unfolding by_kind
spools c = by_kind c (codes "spool")

unfoldable pub nas_locations : Config → List Location
unfolding by_kind
nas_locations c = by_kind c (codes "nas")

-- Config.Classifier, for one order of the three lists
unfoldable pub classifier : Config → Classifier
classifier c = new_classifier (
    (video, c.extensions.video_exts)
    ∷ (audio, c.extensions.audio_exts)
    ∷ (still, c.extensions.still_exts)
    ∷ [])

-- Location.Root: `resolve` is the resolver, if there is one.
unfoldable pub root : Location → Option (Text → Result Error Text) → Result Error Text
root l resolve = if l.volume_uuid == [] then ok l.path else elim resolve [
  | none ↦ err no_resolver
  | some find ↦ find l.volume_uuid >>= λ mount. ok (SlashPath.join (mount ∷ l.path ∷ []))
]
