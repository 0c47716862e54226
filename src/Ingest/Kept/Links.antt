-- ===== src/Ingest/Kept/Links.antt =====
-- ingest/steps.go: the link trees are made from the catalog, whose copies and locations they leave.

use mediamanager.Base.{
  Option, none, some, List, [], ◌∷◌, map, Text, ℕ_eq, Text_eq, Pair_eq, Result, err, ok,
}
use mediamanager.Base.Exec.Keeps.{Keeps, Keeps-pure, Keeps-fail, Keeps-if, Keeps-bind}
use mediamanager.Ingest.Store.{Failure, Step, on_tree}
use mediamanager.Ingest.Env.{Env, Place, source_roots, link_root}
use mediamanager.Ingest.Kept.{On, ask-Keeps, query-Keeps, on_tree-Keeps, tried-Keeps, kept_rules}
use mediamanager.Catalog.{
  LocationKind_eq, Location, Asset, CopyState_eq, Copy, JoinedCopy, Role, Role_eq, Companion,
}
use mediamanager.Media.{Kind, Kind_eq}
use mediamanager.Identity
use mediamanager.Linktree
use mediamanager.Ingest.{companion_path}
use mediamanager.Ingest.Companions.{CompanionKey, location_of}
use mediamanager.Ingest.Transfer.{
  located, appended, known_or_asked, fill_locations, link_all, link_best, link_asset,
  reconcile_asset,
}
use mediamanager.Ingest.Sweep.{
  Stray, added, at_path, candidates_of, listed_links, forget, companion_owner, remove_from_tree,
  renamed_or_copied, move_file, put_beside, swept, sweep_companions,
}
use mediamanager.Ingest.Reconcile.{
  ReconcileReport, Wanted, wanted_at, wanted_of, wanted_kinds, after_audit, audited, reconcile_root,
  reconcile_roots, reconcile_trees,
}

module _ (P : List Copy → List Location → Type 0) where
  abbrev Kept : {A : Type 0} → Step A → Type 0
  Kept m = Keeps (On P) m

  pub source_roots-Keeps : (env : Env) → Kept (source_roots env)
  unfolding source_roots
  source_roots-Keeps env = search kept_rules depth 8

  link_all-Keeps :
      (root rel : Text) (links : List (CompanionKey × Text)) → Kept (link_all root rel links)
  unfolding link_all
  link_all-Keeps root rel [] = Keeps-pure tt
  link_all-Keeps root rel ((key, target) ∷ links) =
      Keeps-bind _ _ (on_tree-Keeps P root (Linktree.set (companion_path rel key.0 key.1) target))
        λ b. link_all-Keeps root rel links

  known_or_asked-Keeps :
      (o : Option Location) (m : Step (Option Location)) → Kept m → Kept (known_or_asked o m)
  known_or_asked-Keeps none m k = k
  known_or_asked-Keeps (some l) m k = Keeps-pure none

  fill_locations-Keeps : (cs : List Companion) (ls : List Location) → Kept (fill_locations cs ls)
  unfolding fill_locations
  fill_locations-Keeps [] ls = Keeps-pure ls
  fill_locations-Keeps (c ∷ cs) ls =
      Keeps-bind _ _ (known_or_asked-Keeps (location_of ls c) _ (tried-Keeps P _ (query-Keeps P _)))
        λ l. fill_locations-Keeps cs (appended ls l)

  link_best-Keeps :
      (root : Text) (a : Asset) (o : Option Text) (m : Step Unit)
      → Kept m
      → Kept (link_best root a o m)
  link_best-Keeps root a none m k = Keeps-pure tt
  link_best-Keeps root a (some target) m k =
      Keeps-bind _ _ (on_tree-Keeps P root (Linktree.set a.rel_path target)) λ b. k

  link_asset-Keeps :
      (env : Env) (ps : List Place) (a : Asset) (o : Option Text) → Kept (link_asset env ps a o)
  link_asset-Keeps env ps a none = Keeps-pure tt
  link_asset-Keeps env ps a (some root) = Keeps-bind _ _ (source_roots-Keeps env) λ sources.
      Keeps-bind _ _ (ask-Keeps P _) λ cs. link_best-Keeps root a _ _ (
        Keeps-bind _ _ (ask-Keeps P _) λ comps. Keeps-if _ _ _ (Keeps-pure tt) (
          Keeps-bind _ _ (fill_locations-Keeps comps (map located cs))
            λ locs. link_all-Keeps root a.rel_path _))

  pub reconcile_asset-Keeps :
      (env : Env) (ps : List Place) (a : Asset) → Kept (reconcile_asset env ps a)
  unfolding reconcile_asset
  reconcile_asset-Keeps env ps a = link_asset-Keeps env ps a (link_root env.config a.kind)

  at_path-Keeps : (rel : Text) (ks : List Kind) (found : List Asset) → Kept (at_path rel ks found)
  unfolding at_path
  at_path-Keeps rel [] found = Keeps-pure found
  at_path-Keeps rel (k ∷ ks) found =
      Keeps-bind _ _ (tried-Keeps P _ (query-Keeps P _)) λ r. at_path-Keeps rel ks (added found r)

  candidates_of-Keeps :
      (kinds : List Kind) (st : Stray) (ns : List Text) (found : List Asset)
      → Kept (candidates_of kinds st ns found)
  unfolding candidates_of
  candidates_of-Keeps kinds st [] found = Keeps-pure found
  candidates_of-Keeps kinds st (n ∷ ns) found =
      Keeps-if _ _ _ (candidates_of-Keeps kinds st ns found)
        (Keeps-bind _ _ (at_path-Keeps _ kinds found) λ more. candidates_of-Keeps kinds st ns more)

  listed_links-Keeps : (root dir : Text) → Kept (listed_links root dir)
  unfolding listed_links
  listed_links-Keeps root dir = record { at = λ s h. h }

  companion_owner-Keeps : (env : Env) (root rel : Text) → Kept (companion_owner env root rel)
  unfolding companion_owner
  companion_owner-Keeps env root rel =
      search (kept_rules, listed_links-Keeps, candidates_of-Keeps) depth 9

  forget-Keeps : (root rel : Text) → Kept (forget root rel)
  unfolding forget
  forget-Keeps root rel = record { at = λ s h. h }

  remove_from_tree-Keeps : (root rel : Text) → Kept (remove_from_tree root rel)
  unfolding remove_from_tree
  remove_from_tree-Keeps root rel = search (kept_rules, forget-Keeps)

  module _ (sha256 : Identity.Bytes → Identity.Bytes) (env : Env) where
    renamed-Keeps :
        (root rel src dst : Text) (o : Option (Unit {0}))
        → Kept (renamed_or_copied sha256 env root rel src dst o)
    renamed-Keeps root rel src dst (some u) = forget-Keeps root rel
    renamed-Keeps root rel src dst none = search (kept_rules, remove_from_tree-Keeps)

    move_file-Keeps : (root rel dst : Text) → Kept (move_file sha256 env root rel dst)
    unfolding move_file
    move_file-Keeps root rel dst = search (kept_rules, renamed-Keeps) depth 9

    put_beside-Keeps :
        (root rel : Text) (a : Asset) (role : Role) (o : Option (JoinedCopy × Text))
        → Kept (put_beside sha256 env root rel a role o)
    put_beside-Keeps root rel a role none = Keeps-pure tt
    put_beside-Keeps root rel a role (some (c, dest_root)) =
        search (kept_rules, move_file-Keeps, remove_from_tree-Keeps) depth 9

    swept-Keeps :
        (root_of : Location → Option Text) (root rel : Text) (o : Option (Asset × Role))
        → Kept (swept sha256 env root_of root rel o)
    swept-Keeps root_of root rel none = Keeps-pure tt
    swept-Keeps root_of root rel (some (a, role)) =
        Keeps-bind _ _ (ask-Keeps P _) λ cs. put_beside-Keeps root rel a role _

    sweep_companions-Keeps :
        (root : Text) (root_of : Location → Option Text) (rels : List Text)
        → Kept (sweep_companions sha256 env root root_of rels)
    unfolding sweep_companions
    sweep_companions-Keeps root root_of [] = Keeps-pure tt
    sweep_companions-Keeps root root_of (rel ∷ rels) =
        let rest = sweep_companions-Keeps root root_of rels in
        Keeps-if _ _ _ rest (
          Keeps-bind _ _ (companion_owner-Keeps env root rel)
            λ o. Keeps-bind _ _ (swept-Keeps root_of root rel o) λ u. rest)

    after_audit-Keeps :
        (root : Text) (root_of : Location → Option Text) (bad : List Text) (r : Result Failure Unit)
        → Kept (after_audit sha256 env root root_of bad r)
    after_audit-Keeps root root_of bad (ok u) = Keeps-pure tt
    after_audit-Keeps root root_of bad (err e) =
        Keeps-if _ _ _
          (Keeps-bind _ _ (sweep_companions-Keeps root root_of bad)
            λ u. on_tree-Keeps P root Linktree.audit)
          (Keeps-fail e)

    audited-Keeps :
        (root : Text) (root_of : Location → Option Text) → Kept (audited sha256 env root root_of)
    unfolding audited
    audited-Keeps root root_of = record {
      at = λ s h.
          (after_audit-Keeps root root_of (Linktree.bad_entries (s.trees root).entries)
              (on_tree root Linktree.audit s).0).at
            (on_tree root Linktree.audit s).1 ((on_tree-Keeps P root Linktree.audit).at s h);
    }

    wanted_at-Keeps :
        (locs : List Location) (root_of : Location → Option Text) (a : Asset) (o : Option Text)
        (acc : Wanted)
        → Kept (wanted_at locs root_of a o acc)
    wanted_at-Keeps locs root_of a none (want, without) = Keeps-pure _
    wanted_at-Keeps locs root_of a (some target) (want, without) = search kept_rules depth 8

    wanted_of-Keeps :
        (locs : List Location) (root_of : Location → Option Text) (more : List Asset) (acc : Wanted)
        → Kept (wanted_of locs root_of more acc)
    unfolding wanted_of
    wanted_of-Keeps locs root_of [] acc = Keeps-pure acc
    wanted_of-Keeps locs root_of (a ∷ more) acc = Keeps-bind _ _ (ask-Keeps P _) λ cs.
        Keeps-bind _ _ (wanted_at-Keeps locs root_of a _ acc)
          λ acc'. wanted_of-Keeps locs root_of more acc'

    wanted_kinds-Keeps :
        (locs : List Location) (root_of : Location → Option Text) (ks : List Kind) (acc : Wanted)
        → Kept (wanted_kinds locs root_of ks acc)
    unfolding wanted_kinds
    wanted_kinds-Keeps locs root_of [] acc = Keeps-pure acc
    wanted_kinds-Keeps locs root_of (k ∷ ks) acc = Keeps-bind _ _ (ask-Keeps P _) λ found.
        Keeps-bind _ _ (wanted_of-Keeps locs root_of found acc)
          λ acc'. wanted_kinds-Keeps locs root_of ks acc'

    reconcile_root-Keeps :
        (locs : List Location) (root_of : Location → Option Text) (root : Text)
        (rep : ReconcileReport)
        → Kept (reconcile_root sha256 env locs root_of root rep)
    unfolding reconcile_root
    reconcile_root-Keeps locs root_of root rep =
        search (kept_rules, audited-Keeps, wanted_kinds-Keeps) depth 9

    reconcile_roots-Keeps :
        (locs : List Location) (root_of : Location → Option Text) (roots : List Text)
        (rep : ReconcileReport)
        → Kept (reconcile_roots sha256 env locs root_of roots rep)
    unfolding reconcile_roots
    reconcile_roots-Keeps locs root_of [] rep = Keeps-pure rep
    reconcile_roots-Keeps locs root_of (root ∷ roots) rep =
        Keeps-bind _ _ (reconcile_root-Keeps locs root_of root rep)
          λ rep'. reconcile_roots-Keeps locs root_of roots rep'

    pub reconcile_trees-Keeps : (ps : List Place) → Kept (reconcile_trees sha256 env ps)
    unfolding reconcile_trees
    reconcile_trees-Keeps ps =
        search (kept_rules, source_roots-Keeps, reconcile_roots-Keeps) depth 9
