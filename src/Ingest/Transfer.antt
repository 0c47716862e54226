-- ===== src/Ingest/Transfer.antt =====
-- ingest/steps.go: Spool and Archive, which copy an asset to a tier. The run is the only one at work:
-- a lock and a slot are free when they are asked for, though the caller may have cancelled. The
-- results that come with a failure, the log and the times of copying are left out.
pub mod Room
use mediamanager.Catalog.Locations.{location_by_id}
use mediamanager.Ingest.Store.{
  Failure, no_readable_copy, spool_full, no_free_space, Step, from_result, ask, query, on_files,
  on_tree, tried, statement,
}
use mediamanager.Ingest.Env.{Env, Place, root_of_places, source_roots, tree_rel, link_root}
use mediamanager.Clock.{zero_time}
use mediamanager.Base.Exec.{pure, fail, ◌>>=◌, ◌>>◌}
use mediamanager.Base.{
  ℕ, ◌+◌, ◌-◌, ◌*◌, ◌^◌, Bool, true, false, ◌&&◌, ◌||◌, not, Option, none, some, List, [], ◌∷◌,
  ◌++◌, map, leb, if◌then◌else◌, is_empty, first, Text, ℕ_eq, Text_eq, Pair_eq, ◌==◌, Result, err,
  ok,
}
use mediamanager.Media.{Kind_eq, uses_sparse_id}
use mediamanager.Identity
use mediamanager.Files.{check_context}
use mediamanager.Copyfile.{Options, Copied, copy}
use mediamanager.Linktree.{set, choose}
use mediamanager.Ingest.{has_complete, companion_path, abs}
use mediamanager.Ingest.Companions.{CompanionKey, location_of, best_companions, sync_companions}
use mediamanager.Config.{serves}
use mediamanager.Catalog.{
  spool, nas, LocationKind_eq, Location, Asset, partial, complete, CopyState_eq, Copy, JoinedCopy,
  Role_eq, Companion,
}
use mediamanager.Catalog.Assets.{asset, set_full_sha256}
use mediamanager.Catalog.Copies.{put_copy, copies}
use mediamanager.Catalog.Companions.{companions}

-- spoolMargin
abbrev pub spool_margin : ℕ
spool_margin = 256 * 2 ^ 20

-- CopyResult
pub record CopyResult : Type 0 where
  pub asset_id : Text
  pub location : Text
  pub skipped : Bool
  pub bytes : ℕ
  pub resumed : ℕ
  pub proxies : ℕ
  pub copied : ℕ

abbrev pub located : JoinedCopy → Location
located c = c.location

abbrev pub appended : List Location → Option Location → List Location
appended ls none = ls
appended ls (some l) = ls ++ (l ∷ [])

-- The locations of reconcileAsset's companions, beside those of the copies: what cannot be read is
-- left out.
abbrev pub known_or_asked : Option Location → Step (Option Location) → Step (Option Location)
known_or_asked none more = more
known_or_asked (some l) more = pure none

unfoldable pub fill_locations : List Companion → List Location → Step (List Location)
unfolding query
fill_locations [] ls = pure ls
fill_locations (c ∷ cs) ls = do
  l ← known_or_asked (location_of ls c) (tried (query (λ db. location_by_id db c.location_id)))
  fill_locations cs (appended ls l)

-- The link tree and, per companion, the link.
unfoldable pub link_all : Text → Text → List (CompanionKey × Text) → Step Unit
unfolding on_tree
link_all root rel [] = pure tt
link_all root rel ((key, target) ∷ links) = do
  on_tree root (set (companion_path rel key.0 key.1) target)
  link_all root rel links

abbrev pub link_best : Text → Asset → Option Text → Step Unit → Step Unit
link_best root a none rest = pure tt
link_best root a (some target) rest = do on_tree root (set a.rel_path target); rest

-- reconcileAsset, of a kind with a link tree
abbrev pub link_asset : Env → List Place → Asset → Option Text → Step Unit
link_asset env ps a none = pure tt
link_asset env ps a (some root) = do
  sources ← source_roots env
  let root_of = root_of_places ps sources
  cs ← ask (λ db. copies db a.id)
  link_best root a (choose cs root_of) (do
    comps ← ask (λ db. companions db a.id)
    if is_empty comps then pure tt else (do
      locs ← fill_locations comps (map located cs)
      link_all root a.rel_path (best_companions comps locs root_of)))

-- reconcileAsset
unfoldable pub reconcile_asset : Env → List Place → Asset → Step Unit
unfolding ask on_tree source_roots root_of_places fill_locations link_all link_root best_companions
reconcile_asset env ps a = link_asset env ps a (link_root env.config a.kind)

abbrev pub or_fail : {A : Type 0} → Failure → Option A → Step A
or_fail e none = fail e
or_fail e (some a) = pure a

unfoldable pub row_of : Asset → Place → Text → Bool → Text → Env → Copy
row_of a dest rel done sum env = record {
  asset_id = a.id;
  location_id = dest.cat.id;
  rel_path = rel;
  state = if done then complete else partial;
  verified_at = if done then env.now else zero_time;
  full_sha256 = sum;
}

-- What a copy must be of: the id of a video or a sound.
unfoldable pub copy_options : Asset → Options
copy_options a = record {
  expect_id = if uses_sparse_id a.kind then a.id else [];
  buffer_size = 0;
  hash_resumed_prefix = false;
}

module _ (sha256 : Identity.Bytes → Identity.Bytes) (env : Env) where
  -- The end of copyTo, once the copy is recorded as complete.
  unfoldable pub after_copy :
      List Place → Asset → (Location → Option Text) → Place → Copied → Step CopyResult
  unfolding statement sync_companions reconcile_asset
  after_copy ps a root_of dest res = do
    if a.full_sha256 == [] && not (res.full_sha256 == [])
        then statement (λ db. set_full_sha256 db a.id res.full_sha256)
        else pure tt
    n ← sync_companions sha256 env a root_of dest false
    reconcile_asset env ps a
    pure (record {
      asset_id = a.id;
      location = dest.cat.name;
      skipped = false;
      bytes = res.size;
      resumed = res.resumed;
      proxies = n;
      copied = res.size - res.resumed;
    })

  -- copyTo
  unfoldable pub copy_to :
      List Place → Asset → List JoinedCopy → (Location → Option Text) → Place → Step CopyResult
  unfolding statement on_files tree_rel choose after_copy row_of copy_options
  copy_to ps a cs root_of dest = do
    src ← or_fail no_readable_copy (choose cs root_of)
    rel ← from_result (λ e. e) (tree_rel env a)
    statement (λ db. put_copy db (row_of a dest rel false [] env))
    res ← on_files (copy sha256 src (abs dest.root rel) (copy_options a))
    statement (λ db. put_copy db (
        row_of a dest rel true (if res.full_sha256 == [] then a.full_sha256 else res.full_sha256)
          env))
    after_copy ps a root_of dest res

  -- lookup
  unfoldable pub lookup : List Place → Text → Step (Asset × List JoinedCopy × List (ℕ × Text))
  unfolding query ask source_roots
  lookup ps asset_id = do
    a ← query (λ db. asset db asset_id)
    cs ← ask (λ db. copies db asset_id)
    sources ← source_roots env
    pure (a, cs, sources)

  -- The copy that makes Spool a no-op: a complete one on a mounted spool.
  unfoldable pub spooled_at : List JoinedCopy → (Location → Option Text) → Option JoinedCopy
  spooled_at cs root_of =
      first
        (λ c.
          c.copy.state == complete
          && c.location.kind == spool
          && (elim (root_of c.location) [ none ↦ false | some r ↦ true ]))
        cs

  abbrev pub room_or_next : Place → ℕ → Option ℕ → Result Failure Place → Result Failure Place
  room_or_next p size none rest = err no_free_space
  room_or_next p size (some free) rest = if leb (size + spool_margin) free then ok p else rest

  -- Spool: the first mounted spool that serves the kind and has room.
  unfoldable pub pick_spool : Asset → List Place → Result Failure Place
  pick_spool a [] = err spool_full
  pick_spool a (p ∷ ps) =
      let rest = pick_spool a ps in
      if not p.mounted || not (p.cat.kind == spool) || not (serves p.cfg a.kind)
      then rest
      else room_or_next p a.size (env.free_space p.root) rest

  abbrev pub skip_result : Text → Text → ℕ → CopyResult
  skip_result asset_id location proxies = record {
    asset_id = asset_id;
    location = location;
    skipped = true;
    bytes = 0;
    resumed = 0;
    proxies = proxies;
    copied = 0;
  }

  abbrev pub skip_or : Text → Option JoinedCopy → Step CopyResult → Step CopyResult
  skip_or asset_id none work = work
  skip_or asset_id (some c) work = pure (skip_result asset_id c.location.name 0)

  -- Spool
  unfoldable pub spool_asset : List Place → Text → Step CopyResult
  unfolding lookup spooled_at pick_spool copy_to
  spool_asset ps asset_id = do
    (a, cs, sources) ← lookup ps asset_id
    let root_of = root_of_places ps sources
    skip_or asset_id (spooled_at cs root_of)
        (do dest ← from_result (λ e. e) (pick_spool a ps); copy_to ps a cs root_of dest)

  -- One round of Archive, at a mounted NAS that serves the kind.
  unfoldable pub archive_at :
      List Place → Asset → List JoinedCopy → (Location → Option Text) → Place → Step CopyResult
  unfolding has_complete sync_companions copy_to on_files
  archive_at ps a cs root_of p =
      if has_complete cs p.cat.id
      then (do
        n ← sync_companions sha256 env a root_of p false
        pure (skip_result a.id p.cat.name n))
      else (do on_files check_context; copy_to ps a cs root_of p)

  -- The loop of Archive.
  unfoldable pub archive_all :
      List Place
      → Asset
      → List JoinedCopy
      → (Location → Option Text)
      → List Place
      → Step (List CopyResult)
  unfolding archive_at
  archive_all ps a cs root_of [] = pure []
  archive_all ps a cs root_of (p ∷ rest) =
      if not p.mounted || not (p.cat.kind == nas) || not (serves p.cfg a.kind)
      then archive_all ps a cs root_of rest
      else (do
        r ← archive_at ps a cs root_of p
        rs ← archive_all ps a cs root_of rest
        pure (r ∷ rs))

  -- Archive
  unfoldable pub archive_asset : List Place → Text → Step (List CopyResult)
  unfolding lookup archive_all
  archive_asset ps asset_id = do
    (a, cs, sources) ← lookup ps asset_id
    archive_all ps a cs (root_of_places ps sources) ps
