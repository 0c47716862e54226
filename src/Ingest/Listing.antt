-- ===== src/Ingest/Listing.antt =====
-- ingest/import.go: the listings of assets and the selections that users make from them. What a
-- failing free-space call gives is the zero of the source.
pub mod Selected
pub mod States
mod Tests
use mediamanager.Base.Exec.{pure, fail, ◌>>=◌, ◌>>◌}
use mediamanager.Base.Exec.{pure, fail, ◌>>=◌, ◌>>◌}
use mediamanager.Base.{
  ℕ, ◌/◌, Bool, true, false, ◌&&◌, ◌||◌, not, Option, none, some, List, [], ◌∷◌, ◌++◌, map, ltb,
  if◌then◌else◌, keep, is_empty, any, Text, codes, text_ltb, has_prefix, trim_prefix, trim_suffix,
  ℕ_eq, Text_eq, Pair_eq, ◌==◌, Result, err, ok,
}
use mediamanager.Catalog
use mediamanager.Ingest.Store.{catalog_error, no_match, Step, ask, query, tried}
use mediamanager.Ingest.Env.{Env, Place, places, all_kinds}
use mediamanager.Media.{Kind, unknown, video, audio, still, Kind_eq, string}
use mediamanager.Catalog.{
  LocationKind, source, spool, nas, LocationKind_eq, Asset, complete, CopyState_eq, JoinedCopy,
  Role_eq, Companion, not_found,
}
use mediamanager.Catalog.Assets.{assets_by_kind, asset}
use mediamanager.Catalog.Worklists.{needs_archive}
use mediamanager.Ingest.Scanned.{AssetRef, ref_of}
use mediamanager.Base.Sorting.{sort}
use mediamanager.Catalog.Copies.{copies}
use mediamanager.Catalog.Companions.{companions}

-- LocationStatus
pub record LocationStatus : Type 0 where
  pub name : Text
  pub kind : LocationKind
  pub root : Text
  pub mounted : Bool
  pub free : ℕ

-- AssetStatus
pub record AssetStatus : Type 0 where
  pub asset : Asset
  pub copies : List Text
  pub state : Text
  pub copy_rows : List JoinedCopy
  pub companions : List Companion

-- The four flags of assetStatus.
pub record Flags : Type 0 where
  pub on_spool : Bool
  pub on_nas : Bool
  pub on_source : Bool
  pub partial : Bool

abbrev pub flagged : LocationKind → Flags → Flags
flagged spool fl = record fl { on_spool = true }
flagged nas fl = record fl { on_nas = true }
flagged source fl = record fl { on_source = true }

-- The loop of assetStatus, which gathers the names of the locations too.
unfoldable pub flags_of : List JoinedCopy → Flags → List Text → Flags × List Text
flags_of [] fl names = (fl, names)
flags_of (c ∷ cs) fl names =
    if c.copy.state == complete
    then flags_of cs (flagged c.location.kind fl) (names ++ (c.location.name ∷ []))
    else flags_of cs (record fl { partial = true }) names

unfoldable pub label : Flags → Text
label fl =
    if fl.on_nas && fl.on_spool
    then codes "archived"
    else if fl.on_nas
    then codes "flushed"
    else if fl.on_spool
    then codes "spooled"
    else if fl.on_source
    then codes "discovered"
    else codes "unavailable"

abbrev pub no_flags : Flags
no_flags = record { on_spool = false; on_nas = false; on_source = false; partial = false }

-- assetStatus
unfoldable pub asset_status : Asset → List JoinedCopy → AssetStatus
unfolding flags_of label
asset_status a cs =
    let (fl, names) = flags_of cs no_flags [] in
    record {
      asset = a;
      copies = names;
      state = if fl.partial then label fl ++ codes "+partial" else label fl;
      copy_rows = cs;
      companions = [];
    }

-- The inner loop of assetStatuses
unfoldable pub statuses_of : Bool → List Asset → Step (List AssetStatus)
unfolding ask asset_status
statuses_of with_companions [] = pure []
statuses_of with_companions (a ∷ more) = do
  cs ← ask (λ db. copies db a.id)
  let st = asset_status a cs
  st' ←
      if with_companions
      then (do found ← ask (λ db. companions db a.id); pure (record st { companions = found }))
      else pure st
  rest ← statuses_of with_companions more
  pure (st' ∷ rest)

unfoldable pub statuses_of_kinds : Bool → List Kind → Step (List AssetStatus)
unfolding ask statuses_of
statuses_of_kinds with_companions [] = pure []
statuses_of_kinds with_companions (k ∷ ks) = do
  assets ← ask (λ db. assets_by_kind db k)
  some_of_them ← statuses_of with_companions assets
  rest ← statuses_of_kinds with_companions ks
  pure (some_of_them ++ rest)

-- assetStatuses
unfoldable pub asset_statuses : Bool → Step (List AssetStatus)
unfolding statuses_of_kinds
asset_statuses with_companions = statuses_of_kinds with_companions all_kinds

-- ListOptions
pub record ListOptions : Type 0 where
  pub prefixes : List Text
  pub states : List Text
  pub location : Text
  pub kind : Kind
  pub companions : Bool

abbrev pub has : Text → List Text → Bool
has t ts = any (λ x. x == t) ts

abbrev pub trimmed : Text → Text
trimmed p = trim_prefix (trim_suffix p (codes "/")) (codes "./")

unfoldable pub fits : Asset → Text → Bool
fits a p =
    trimmed p == []
    || has_prefix a.rel_path (trimmed p)
    || has_prefix (string a.kind ++ (codes "/" ++ a.rel_path)) (trimmed p)

-- ListOptions.matches
unfoldable pub matches : ListOptions → AssetStatus → Bool
unfolding fits
matches o st =
    (o.kind == unknown || st.asset.kind == o.kind)
    && (is_empty o.states
        || has (trim_suffix st.state (codes "+partial")) o.states
        || has st.state o.states)
    && (o.location == [] || has o.location st.copies)
    && (is_empty o.prefixes || any (fits st.asset) o.prefixes)

unfoldable pub kind_rank : Kind → ℕ
kind_rank unknown = 0
kind_rank video = 1
kind_rank audio = 2
kind_rank still = 3

-- The order of List
unfoldable pub listed_before : AssetStatus → AssetStatus → Bool
unfolding kind_rank
listed_before x y =
    if not (x.asset.rel_path == y.asset.rel_path)
    then text_ltb x.asset.rel_path y.asset.rel_path
    else ltb (kind_rank x.asset.kind) (kind_rank y.asset.kind)

-- Env.List
unfoldable pub list_assets : ListOptions → Step (List AssetStatus)
unfolding asset_statuses matches listed_before
list_assets o = do
  all ← asset_statuses o.companions
  pure (sort listed_before (keep (matches o) all))

-- What Select adds: the assets that are not among the ones it has.
unfoldable pub add_new : List AssetRef → List Asset → List AssetRef
unfolding ref_of
add_new refs [] = refs
add_new refs (a ∷ more) =
    if any (λ (r : AssetRef). r.id == a.id) refs
    then add_new refs more
    else add_new (refs ++ (ref_of a ∷ [])) more

abbrev pub with_prefix : Text → ListOptions
with_prefix arg = record {
  prefixes = arg ∷ [];
  states = [];
  location = [];
  kind = unknown;
  companions = false;
}

abbrev pub assets_of : List AssetStatus → List Asset
assets_of sts = map (λ (st : AssetStatus). st.asset) sts

abbrev pub by_path : Text → Step (List Asset)
by_path arg = do
  found ← list_assets (with_prefix arg)
  if is_empty found then fail no_match else pure (assets_of found)

abbrev pub by_id_or_path : Text → Option Asset → Step (List Asset)
by_id_or_path arg (some a) = pure (a ∷ [])
by_id_or_path arg none = by_path arg

-- Select, having the references `refs`
unfoldable pub select_from : List AssetRef → List Text → Step (List AssetRef)
unfolding query list_assets add_new
select_from refs [] = pure refs
select_from refs (arg ∷ args) = do
  found ← tried (query (λ db. asset db arg))
  assets ← by_id_or_path arg found
  select_from (add_new refs assets) args

-- Select
unfoldable pub select : List Text → Step (List AssetRef)
unfolding select_from
select args = select_from [] args

abbrev pub ref_or_skip : Result Catalog.Error Asset → Step (List AssetRef)
ref_or_skip (ok a) = pure (ref_of a ∷ [])
ref_or_skip (err Catalog.not_found) = pure []
ref_or_skip (err e) = fail (catalog_error e)

-- Refs
unfoldable pub refs_of : List Text → Step (List AssetRef)
unfolding ref_of ask
refs_of [] = pure []
refs_of (id ∷ ids) = do
  r ← ask (λ db. asset db id)
  ref ← ref_or_skip r
  rest ← refs_of ids
  pure (ref ++ rest)

-- NeedsArchiveRefs, NeedsArchiveIDs
unfoldable pub needs_archive_refs : Step (List AssetRef)
unfolding ask ref_of
needs_archive_refs = do assets ← ask needs_archive; pure (map ref_of assets)

unfoldable pub needs_archive_all : Step (List Text)
unfolding ask
needs_archive_all = do assets ← ask needs_archive; pure (map (λ (a : Asset). a.id) assets)

abbrev pub location_status : Env → Place → LocationStatus
location_status env p = record {
  name = p.cat.name;
  kind = p.cat.kind;
  root = p.root;
  mounted = p.mounted;
  free = if p.mounted then elim (env.free_space p.root) [ none ↦ 0 | some n ↦ n ] else 0;
}

-- Status
unfoldable pub status : Env → Step (List LocationStatus × List AssetStatus)
unfolding places asset_statuses
status env = do
  ps ← places env
  assets ← asset_statuses false
  pure (map (location_status env) ps, assets)
