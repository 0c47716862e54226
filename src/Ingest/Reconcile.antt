-- ===== src/Ingest/Reconcile.antt =====
-- ingest/steps.go: Reconcile, which makes every link tree show the best copies.
use mediamanager.Base.Exec.{pure, fail, ◌>>=◌, ◌>>◌}
use mediamanager.Base.{
  Bool, true, false, Option, none, some, List, [], ◌∷◌, ◌++◌, if◌then◌else◌, Text, ℕ_eq, Text_eq,
  Pair_eq, Result, err, ok,
}
use mediamanager.Ingest.Store.{Failure, tree_error, Step, ask, on_tree}
use mediamanager.Ingest.Env.{Env, Place, root_of_places, source_roots, link_roots, kinds_linked_at}
use mediamanager.Catalog.{LocationKind_eq, Location, Asset, CopyState_eq, Role_eq}
use mediamanager.Media.{Kind, Kind_eq}
use mediamanager.Identity
use mediamanager.Table.{put}
use mediamanager.Linktree
use mediamanager.Linktree.{real_files, Report, reconcile, bad_entries, audit, choose}
use mediamanager.Ingest.{companion_path}
use mediamanager.Ingest.Companions.{CompanionKey, best_companions}
use mediamanager.Ingest.Sweep.{sweep_companions}
use mediamanager.Catalog.Assets.{assets_by_kind}
use mediamanager.Catalog.Copies.{copies}
use mediamanager.Catalog.Companions.{companions}
use mediamanager.Catalog.Locations.{all_locations}

-- ReconcileReport
pub record ReconcileReport : Type 0 where
  pub reports : List (Text × Report)
  pub unavailable : List Text

-- The links that a tree is to have, and the assets without a usable copy.
abbrev pub Wanted : Type 0
Wanted = List (Text × Text) × List Text

abbrev pub want_key : Text × Text → Text
want_key w = w.0

-- want[rel] = target
unfoldable pub want_link : Text → Text → List (Text × Text) → List (Text × Text)
want_link rel target want = put want_key (rel, target) want

unfoldable pub want_companions :
    Text → List (CompanionKey × Text) → List (Text × Text) → List (Text × Text)
unfolding want_link
want_companions rel [] want = want
want_companions rel ((key, target) ∷ links) want =
    want_companions rel links (want_link (companion_path rel key.0 key.1) target want)

abbrev pub wanted_at :
    List Location → (Location → Option Text) → Asset → Option Text → Wanted → Step Wanted
wanted_at locs root_of a none (want, without) = pure (want, without ++ (a.id ∷ []))
wanted_at locs root_of a (some target) (want, without) = do
  comps ← ask (λ db. companions db a.id)
  pure (
    want_companions a.rel_path (best_companions comps locs root_of)
        (want_link a.rel_path target want),
    without,
  )

unfoldable pub wanted_of :
    List Location → (Location → Option Text) → List Asset → Wanted → Step Wanted
unfolding ask want_companions best_companions
wanted_of locs root_of [] acc = pure acc
wanted_of locs root_of (a ∷ more) acc = do
  cs ← ask (λ db. copies db a.id)
  acc' ← wanted_at locs root_of a (choose cs root_of) acc
  wanted_of locs root_of more acc'

unfoldable pub wanted_kinds :
    List Location → (Location → Option Text) → List Kind → Wanted → Step Wanted
unfolding ask wanted_of
wanted_kinds locs root_of [] acc = pure acc
wanted_kinds locs root_of (k ∷ ks) acc = do
  found ← ask (λ db. assets_by_kind db k)
  acc' ← wanted_of locs root_of found acc
  wanted_kinds locs root_of ks acc'

module _ (sha256 : Identity.Bytes → Identity.Bytes) (env : Env) where
  abbrev pub is_real_files : Failure → Bool
  is_real_files (tree_error real_files) = true
  is_real_files _ = false

  -- An audit that finds real files is repeated once the companions are swept.
  abbrev pub after_audit :
      Text → (Location → Option Text) → List Text → Result Failure Unit → Step Unit
  after_audit root root_of bad (ok u) = pure tt
  after_audit root root_of bad (err e) =
      if is_real_files e
      then (do sweep_companions sha256 env root root_of bad; on_tree root audit)
      else fail e

  unfoldable pub audited : Text → (Location → Option Text) → Step Unit
  unfolding on_tree sweep_companions
  audited root root_of s =
      let r = on_tree root audit s in
      after_audit root root_of (bad_entries (s.trees root).entries) r.0 r.1

  -- One root of Reconcile's loop.
  unfoldable pub reconcile_root :
      List Location → (Location → Option Text) → Text → ReconcileReport → Step ReconcileReport
  unfolding audited wanted_kinds kinds_linked_at on_tree
  reconcile_root locs root_of root rep = do
    audited root root_of
    (want, without) ←
        wanted_kinds locs root_of (kinds_linked_at env.config root) ([], rep.unavailable)
    tree ← on_tree root (Linktree.reconcile want false)
    pure (record { reports = rep.reports ++ ((root, tree) ∷ []); unavailable = without })

  unfoldable pub reconcile_roots :
      List Location → (Location → Option Text) → List Text → ReconcileReport → Step ReconcileReport
  unfolding reconcile_root
  reconcile_roots locs root_of [] rep = pure rep
  reconcile_roots locs root_of (root ∷ roots) rep = do
    rep' ← reconcile_root locs root_of root rep
    reconcile_roots locs root_of roots rep'

  -- Reconcile
  unfoldable pub reconcile_trees : List Place → Step ReconcileReport
  unfolding source_roots root_of_places ask reconcile_roots link_roots
  reconcile_trees ps = do
    sources ← source_roots env
    locs ← ask all_locations
    reconcile_roots locs (root_of_places ps sources) (link_roots env.config)
        (record { reports = []; unavailable = [] })
