-- ===== src/Ingest/Sweep.antt =====
-- ingest/steps.go: companions that were made inside a link tree are moved to the tiers. A file of a
-- tree has its node there, and its content among the files, at the root joined with its path.
use mediamanager.Catalog.Companions.{put_companion}
use mediamanager.Base.Exec.{pure, ◌>>=◌, ◌>>◌}
use mediamanager.Base.{
  ◌-◌, Bool, false, ◌&&◌, ◌||◌, not, Option, none, some, List, [], ◌∷◌, ◌++◌, map, if◌then◌else◌,
  length, take, keep, Text, codes, text_ltb, trim_prefix, lower, ℕ_eq, Text_eq, Pair_eq, ◌==◌, ok,
}
use mediamanager.Base.Sorting.{sort}
use mediamanager.Ingest.Store.{Step, ask, query, on_files, on_tree, tried, statement}
use mediamanager.Ingest.Env.{Env, kinds_linked_at}
use mediamanager.Catalog.{
  source, LocationKind_eq, Location, Asset, complete, CopyState_eq, JoinedCopy, Role, proxy,
  sidecar, proxy_sidecar, Role_eq, regenerable,
}
use mediamanager.Media.{Kind, video, Kind_eq}
use mediamanager.SlashPath
use mediamanager.Identity
use mediamanager.Table.{remove}
use mediamanager.Files.{found, call}
use mediamanager.Copyfile.{rename, copy}
use mediamanager.Scan.{keeps_original_ext, is_sidecar_ext, folds_to, classify}
use mediamanager.Linktree
use mediamanager.Linktree.{Node, symlink, path_of}
use mediamanager.Config.{classifier}
use mediamanager.Ingest.{companion_path, abs, preferred_owner}
use mediamanager.Ingest.Scanned.{video_only}
use mediamanager.Ingest.Companions.{
  unlink, ignoring, hash_file, replace_if_different, plain, hash_or_empty, subdir_of,
}
use mediamanager.Catalog.Assets.{asset_by_path}
use mediamanager.Catalog.Copies.{copies}

-- The name without its last extension.
unfoldable pub stem : Text → Text
stem name = take (length name - length (SlashPath.ext name)) name

-- The extension in lower case, without its dot.
unfoldable pub lower_ext : Text → Text
lower_ext name = lower (trim_prefix (SlashPath.ext name) (codes "."))

-- Where a stray companion sits and what it is.
pub record Stray : Type 0 where
  pub stray_base : Text
  pub stray_role : Role
  pub asset_dir : Text

abbrev pub above : Text → Text
above dir =
    let d = SlashPath.dir (SlashPath.clean dir) ++ codes "/" in if d == codes "./" then [] else d

-- The first part of companionOwner.
unfoldable pub stray_of : Text → Stray
unfolding stem lower_ext is_sidecar_ext folds_to keeps_original_ext
stray_of rel =
    let (dir, name) = SlashPath.split rel in
    let ext = lower_ext name in
    let in_proxy = folds_to (SlashPath.base (SlashPath.clean dir)) (codes "proxy") in
    record {
      stray_base = if keeps_original_ext ext then stem (stem name) else stem name;
      stray_role =
          if in_proxy then (if is_sidecar_ext ext then proxy_sidecar else proxy) else sidecar;
      asset_dir = if in_proxy then above dir else dir;
    }

-- The symlinks of a directory, by name: os.ReadDir
abbrev pub is_link_in : Text → Text × Node → Bool
is_link_in dir (p, symlink t) = (SlashPath.split p).0 == dir
is_link_in dir (p, n) = false

abbrev pub name_of : Text × Node → Text
name_of e = SlashPath.base e.0

unfoldable pub links_in : Text → Linktree.State → List Text
links_in dir s = sort text_ltb (map name_of (keep (is_link_in dir) s.entries))

abbrev pub added : List Asset → Option Asset → List Asset
added found none = found
added found (some a) = found ++ (a ∷ [])

-- The assets of the kinds at a path.
unfoldable pub at_path : Text → List Kind → List Asset → Step (List Asset)
unfolding query
at_path rel [] found = pure found
at_path rel (k ∷ ks) found = do
  r ← tried (query (λ db. asset_by_path db k rel))
  at_path rel ks (added found r)

unfoldable pub candidates_of : List Kind → Stray → List Text → List Asset → Step (List Asset)
unfolding at_path stem
candidates_of kinds st [] found = pure found
candidates_of kinds st (n ∷ ns) found =
    if not (stem n == st.stray_base) then candidates_of kinds st ns found else (do
      found' ← at_path (SlashPath.join (st.asset_dir ∷ n ∷ [])) kinds found
      candidates_of kinds st ns found')

abbrev pub owned_by : Stray → Text → List Asset → Option (Asset × Role)
owned_by st ext [] = none
owned_by st ext (c ∷ cs) = some (preferred_owner c cs ext, st.stray_role)

abbrev pub for_role : Role → List Asset → List Asset
for_role proxy cs = video_only cs
for_role _ cs = cs

-- The names of the symlinks beside a stray: the listing may fail.
unfoldable pub listed_links : Text → Text → Step (List Text)
unfolding links_in
listed_links root dir s = (ok (links_in dir (s.trees root)), s)

-- The node of a file that was moved or removed goes from the tree.
unfoldable pub forget : Text → Text → Step Unit
forget root rel s = (
  ok tt,
  record s {
    trees = λ p.
        if root == p
        then record (s.trees root) { entries = remove path_of rel (s.trees root).entries }
        else s.trees p;
  },
)

-- companionOwner
unfoldable pub companion_owner : Env → Text → Text → Step (Option (Asset × Role))
unfolding on_tree listed_links candidates_of stray_of kinds_linked_at lower_ext video_only
companion_owner env root rel = do
  let st = stray_of rel
  on_tree root Linktree.call
  names ← listed_links root st.asset_dir
  cands ← candidates_of (kinds_linked_at env.config root) st names []
  pure (owned_by st (lower_ext (SlashPath.base rel)) (for_role st.stray_role cands))

-- os.Remove of a file of the tree: its node goes, too.
unfoldable pub remove_from_tree : Text → Text → Step Unit
unfolding on_files forget
remove_from_tree root rel = do on_files (unlink (abs root rel)); forget root rel

-- The copy beside which a companion is put: the nearest complete one, on no source.
unfoldable pub sweep_dest : List JoinedCopy → (Location → Option Text) → Option (JoinedCopy × Text)
sweep_dest [] root_of = none
sweep_dest (c ∷ cs) root_of =
    let rest = sweep_dest cs root_of in
    if not (c.copy.state == complete) || c.location.kind == source
    then rest
    else elim (root_of c.location) [ none ↦ rest | some r ↦ some (c, r) ]

module _ (sha256 : Identity.Bytes → Identity.Bytes) (env : Env) where
  abbrev pub renamed_or_copied : Text → Text → Text → Text → Option (Unit {0}) → Step Unit
  renamed_or_copied root rel src dst (some u) = forget root rel
  renamed_or_copied root rel src dst none = do
    r ← on_files (copy sha256 src dst (plain sha256))
    remove_from_tree root rel

  -- moveFile, from a link tree
  unfoldable pub move_file : Text → Text → Text → Step Unit
  unfolding on_files remove_from_tree forget
  move_file root rel dst = do
    let src = abs root rel
    on_files call
    on_files (ignoring (unlink dst))
    moved ← tried (on_files (rename src dst))
    renamed_or_copied root rel src dst moved

  abbrev pub put_beside : Text → Text → Asset → Role → Option (JoinedCopy × Text) → Step Unit
  put_beside root rel a role none = pure tt
  put_beside root rel a role (some (c, dest_root)) = do
    let ext = lower_ext (SlashPath.base rel)
    let dest_rel = SlashPath.join (subdir_of sha256 env a ∷ companion_path a.rel_path role ext ∷ [])
    let dst = abs dest_root dest_rel
    if regenerable role then move_file root rel dst else (do
      b ← on_files (replace_if_different sha256 (abs root rel) dst)
      remove_from_tree root rel)
    sum ← tried (on_files (hash_file sha256 dst))
    statement (λ db. put_companion db (record {
      asset_id = a.id;
      location_id = c.copy.location_id;
      role = role;
      ext = ext;
      rel_path = dest_rel;
      sha256 = hash_or_empty sha256 sum;
    }))

  abbrev pub swept : (Location → Option Text) → Text → Text → Option (Asset × Role) → Step Unit
  swept root_of root rel none = pure tt
  swept root_of root rel (some (a, role)) = do
    cs ← ask (λ db. copies db a.id)
    put_beside root rel a role (sweep_dest cs root_of)

  -- Whether a file is of a kind that may turn up.
  unfoldable pub may_sweep : Text → Bool
  unfolding lower_ext is_sidecar_ext folds_to
  may_sweep rel =
      is_sidecar_ext (lower_ext (SlashPath.base rel))
      || (folds_to (SlashPath.base (SlashPath.dir rel)) (codes "proxy")
          && (classify (classifier env.config) (SlashPath.base rel)).0 == video)

  -- sweepCompanions
  unfoldable pub sweep_companions : Text → (Location → Option Text) → List Text → Step Unit
  unfolding ask on_files companion_owner sweep_dest move_file remove_from_tree statement hash_file
      may_sweep
  sweep_companions root root_of [] = pure tt
  sweep_companions root root_of (rel ∷ rels) =
      if not (may_sweep rel) then sweep_companions root root_of rels else (do
        owner ← companion_owner env root rel
        swept root_of root rel owner
        sweep_companions root root_of rels)
