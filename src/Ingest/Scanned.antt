-- ===== src/Ingest/Scanned.antt =====
-- ingest/source.go: ScanSource, which registers all that is on a source. `entries` is what is below a
-- directory, as package scan walks it.
use mediamanager.Base.Exec.{pure, fail, ◌>>=◌, ◌>>◌}
use mediamanager.Base.{
  ℕ, Bool, true, false, not, Option, none, some, List, [], ◌∷◌, ◌++◌, map, if◌then◌else◌, length,
  take, keep, Text, codes, ℕ_eq, Text_eq, Pair_eq, ◌==◌, Result, err, ok,
}
use mediamanager.Clock.{Time}
use mediamanager.Media.{video, Kind_eq, string}
use mediamanager.SlashPath
use mediamanager.Identity
use mediamanager.Scan
use mediamanager.Scan.{
  Shape, Role, original, proxy, sidecar, proxy_sidecar, File, is_original, base, name, original_dir,
}
use mediamanager.Scan.Walk
use mediamanager.Scan.Walk.{Entries, Error, Found, scan}
use mediamanager.Ingest.Env.{Env, source_location}
use mediamanager.Config.{tree, classifier}
use mediamanager.Catalog
use mediamanager.Catalog.{LocationKind_eq, Location, Asset, CopyState_eq, Role_eq}
use mediamanager.Catalog.Companions.{put_companion}
use mediamanager.Ingest.{preferred_owner}
use mediamanager.Ingest.Store.{not_a_directory, scan_failed, Step, on_files, statement}
use mediamanager.Ingest.Source.{full_file, register}

-- AssetRef
pub record AssetRef : Type 0 where
  pub id : Text
  pub path : Text
  pub size : ℕ

-- RefOf
unfoldable pub ref_of : Asset → AssetRef
ref_of a = record { id = a.id; path = string a.kind ++ (codes "/" ++ a.rel_path); size = a.size }

-- Source
pub record Source : Type 0 where
  pub loc : Location
  pub root : Text
  pub shape : Shape
  pub assets : List Text
  pub new : List Text
  pub refs : List AssetRef
  pub unrecognised : List Text
  pub unrouted : List Text
  pub orphans : List Text

-- ScanSummary
pub record ScanSummary : Type 0 where
  pub source : Text
  pub shape : Shape
  pub assets : ℕ
  pub new : ℕ
  pub unrouted : ℕ
  pub orphans : ℕ
  pub unrecognised : ℕ
  pub examples : List Text

-- MaxExamples
abbrev pub max_examples : ℕ
max_examples = 20

-- Source.Summary
unfoldable pub summary : Source → ScanSummary
summary s = record {
  source = s.loc.name;
  shape = s.shape;
  assets = length s.assets;
  new = length s.new;
  unrouted = length s.unrouted;
  orphans = length s.orphans;
  unrecognised = length s.unrecognised;
  examples =
      take max_examples s.unrouted
      ++ (take max_examples s.orphans ++ take max_examples s.unrecognised);
}

-- The key by which a companion finds its original: the directory and the base name.
unfoldable pub pair_key : File → Text
pair_key f = SlashPath.join (original_dir f ∷ Scan.base f ∷ [])

-- videoOnly
unfoldable pub video_only : List Asset → List Asset
video_only cands = keep (λ a. a.kind == video) cands

abbrev pub asset_of : Text × Asset → Asset
asset_of e = e.1

-- Catalog's role of a companion; an original has none.
abbrev pub role_in_catalog : Scan.Role → Option Catalog.Role
role_in_catalog Scan.original = none
role_in_catalog Scan.proxy = some Catalog.proxy
role_in_catalog Scan.sidecar = some Catalog.sidecar
role_in_catalog Scan.proxy_sidecar = some Catalog.proxy_sidecar

-- The originals that a companion may belong to; a proxy belongs to a video.
unfoldable pub owners : List (Text × Asset) → File → List Asset
unfolding pair_key video_only
owners by_key f =
    let cands = map asset_of (keep (λ e. e.0 == pair_key f) by_key) in
    elim f.role [ proxy ↦ video_only cands | other ↦ cands ]

module _ (sha256 : Identity.Bytes → Identity.Bytes) (capture_time : File → Time) (env : Env) where
  -- The first loop of ScanSource, over the originals.
  unfoldable pub register_all :
      Location → List File → Source × List (Text × Asset) → Step (Source × List (Text × Asset))
  unfolding register ref_of pair_key
  register_all loc [] acc = pure acc
  register_all loc (f ∷ fs) (src, by_key) =
      if not (is_original f)
      then register_all loc fs (src, by_key)
      else elim (tree env.config f.kind) [
        | none ↦
            register_all loc fs (record src { unrouted = src.unrouted ++ (f.rel ∷ []) }, by_key)
        | some t ↦ (do
          (a, is_new) ← register sha256 capture_time loc f
          register_all loc fs (
            record src {
              assets = src.assets ++ (a.id ∷ []);
              refs = src.refs ++ (ref_of a ∷ []);
              new = if is_new then src.new ++ (a.id ∷ []) else src.new;
            },
            by_key ++ ((pair_key f, a) ∷ []),
          ))
      ]

  -- A companion of the best of its owners, or an orphan.
  abbrev pub pair_one : Location → File → Option Catalog.Role → List Asset → Step Bool
  pair_one loc f none cands = pure true
  pair_one loc f (some role) [] = pure false
  pair_one loc f (some role) (c ∷ cs) = do
    let a = preferred_owner c cs f.ext
    sum ← on_files (full_file sha256 capture_time f.abs)
    statement (λ db. put_companion db (record {
      asset_id = a.id;
      location_id = loc.id;
      role = role;
      ext = f.ext;
      rel_path = f.rel;
      sha256 = sum;
    }))
    pure true

  -- The second loop of ScanSource, over the companions.
  unfoldable pub pair_all : Location → List (Text × Asset) → List File → Source → Step Source
  unfolding owners
  pair_all loc by_key [] src = pure src
  pair_all loc by_key (f ∷ fs) src = do
    paired ← pair_one loc f (role_in_catalog f.role) (owners by_key f)
    pair_all loc by_key fs
        (if paired then src else record src { orphans = src.orphans ++ (f.rel ∷ []) })

  abbrev pub scanned : Result Scan.Walk.Error (Shape × Found) → Step (Shape × Found)
  scanned (ok r) = pure r
  scanned (err e) = fail scan_failed

  -- ScanSource
  unfoldable pub scan_source : (Text → Entries) → Text → Step Source
  unfolding source_location register_all pair_all
  scan_source entries given = do
    let root = SlashPath.clean given
    if not (env.is_dir root) then fail not_a_directory else (do
      loc ← source_location env root
      res ← scanned (Scan.Walk.scan root (classifier env.config) (entries root))
      (src, by_key) ← register_all loc res.1.files (
        record {
          loc = loc;
          root = root;
          shape = res.0;
          assets = [];
          new = [];
          refs = [];
          unrecognised = res.1.unrecognised;
          unrouted = [];
          orphans = [];
        },
        [],
      )
      pair_all loc by_key res.1.files src)
