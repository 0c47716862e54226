-- ===== src/Ingest/Kept/Steps.antt =====
-- ingest/steps.go: whatever deals with companions and links leaves the copies and the locations of the
-- catalog alone, whichever call fails.

use mediamanager.Base.{
  ℕ, suc, Bool, true, false, Option, none, some, List, [], ◌∷◌, if◌then◌else◌, Text, ℕ_eq, Text_eq,
  Pair_eq,
}
use mediamanager.Base.Exec.Keeps.{Keeps, Keeps-pure, Keeps-if, Keeps-bind}
use mediamanager.Ingest.Store.{Step}
use mediamanager.Ingest.Env.{Env, Place}
use mediamanager.Ingest.Kept.{On, kept_rules}
use mediamanager.Catalog.{LocationKind_eq, Location, Asset, CopyState_eq, Copy, Role_eq, Companion}
use mediamanager.Identity
use mediamanager.Ingest.Companions.{
  CompanionKey, record_companion, recorded_if, sync_one, sync_all, sync_companions, recorded_there,
  secure_at, at_root, safe_on_nas, dropped, drop_one, drop_all_of, drop_spool_companions,
}

module _ (P : List Copy → List Location → Type 0) (sha256 : Identity.Bytes → Identity.Bytes) where
  abbrev Kept : {A : Type 0} → Step A → Type 0
  Kept m = Keeps (On P) m

  record_companion-Keeps :
      (a : Asset) (l : ℕ) (key : CompanionKey) (rel dst : Text)
      → Kept (record_companion sha256 a l key rel dst)
  unfolding record_companion
  record_companion-Keeps a l key rel dst = search kept_rules depth 8

  -- The environment of the steps is one for them all.
  module _ (env : Env) where
    recorded_if-Keeps :
        (a : Asset) (l : ℕ) (key : CompanionKey) (rel dst : Text) (o : Option Bool)
        → Kept (recorded_if sha256 env a l key rel dst o)
    recorded_if-Keeps a l key rel dst none = Keeps-pure false
    recorded_if-Keeps a l key rel dst (some false) = Keeps-pure false
    recorded_if-Keeps a l key rel dst (some true) =
        search (kept_rules, record_companion-Keeps) depth 8

    sync_one-Keeps :
        (a : Asset) (dest : Place) (b : Bool) (c : CompanionKey × Text)
        → Kept (sync_one sha256 env a dest b c)
    unfolding sync_one
    sync_one-Keeps a dest b c = search (kept_rules, recorded_if-Keeps) depth 8

    sync_all-Keeps :
        (a : Asset) (dest : Place) (b : Bool) (cs : List (CompanionKey × Text))
        → Kept (sync_all sha256 env a dest b cs)
    unfolding sync_all
    sync_all-Keeps a dest b [] = Keeps-pure 0
    sync_all-Keeps a dest b (c ∷ cs) = Keeps-bind _ _ (sync_one-Keeps a dest b c) λ wrote.
        Keeps-bind _ _ (sync_all-Keeps a dest b cs) λ n. Keeps-pure (if wrote then suc n else n)

    pub sync_companions-Keeps :
        (a : Asset) (root_of : Location → Option Text) (dest : Place) (b : Bool)
        → Kept (sync_companions sha256 env a root_of dest b)
    unfolding sync_companions
    sync_companions-Keeps a root_of dest b = search (kept_rules, sync_all-Keeps) depth 8

    recorded_there-Keeps :
        (a : Asset) (c : Companion) (l : ℕ) (rel dst : Text) (o : Option (Unit {0}))
        → Kept (recorded_there sha256 env a c l rel dst o)
    recorded_there-Keeps a c l rel dst none = Keeps-pure false
    recorded_there-Keeps a c l rel dst (some u) =
        search (kept_rules, record_companion-Keeps) depth 8

    secure_at-Keeps :
        (a : Asset) (c : Companion) (src : Text) (l : Location) (root : Text)
        → Kept (secure_at sha256 env a c src l root)
    unfolding secure_at
    secure_at-Keeps a c src l root = search (kept_rules, recorded_there-Keeps) depth 8

    at_root-Keeps :
        (rest : Step Bool) (here : Text → Step Bool) (o : Option Text)
        → Kept rest
        → ((root : Text) → Kept (here root))
        → Kept (at_root sha256 env rest here o)
    at_root-Keeps rest here none k h = k
    at_root-Keeps rest here (some root) k h =
        Keeps-bind _ _ (h root) λ done. Keeps-if done _ _ (Keeps-pure true) k

    safe_on_nas-Keeps :
        (a : Asset) (c : Companion) (src : Text) (root_of : Location → Option Text)
        (ls : List Location)
        → Kept (safe_on_nas sha256 env a c src root_of ls)
    unfolding safe_on_nas
    safe_on_nas-Keeps a c src root_of [] = Keeps-pure false
    safe_on_nas-Keeps a c src root_of (l ∷ ls) =
        let rest = safe_on_nas-Keeps a c src root_of ls in
        Keeps-if _ _ _ rest (
          at_root-Keeps _ (secure_at sha256 env a c src l) (root_of l) rest
            (secure_at-Keeps a c src l))

    dropped-Keeps :
        (a : Asset) (id : ℕ) (c : Companion) (o : Option (Unit {0}))
        → Kept (dropped sha256 env a id c o)
    dropped-Keeps a id c none = Keeps-pure tt
    dropped-Keeps a id c (some u) = search kept_rules depth 8

    drop_one-Keeps :
        (a : Asset) (p : Place) (root_of : Location → Option Text) (locs : List Location)
        (c : Companion)
        → Kept (drop_one sha256 env a p root_of locs c)
    unfolding drop_one
    drop_one-Keeps a p root_of locs c =
        search (kept_rules, safe_on_nas-Keeps, dropped-Keeps) depth 9

    drop_all_of-Keeps :
        (a : Asset) (p : Place) (root_of : Location → Option Text) (locs : List Location)
        (cs : List Companion)
        → Kept (drop_all_of sha256 env a p root_of locs cs)
    unfolding drop_all_of
    drop_all_of-Keeps a p root_of locs [] = Keeps-pure tt
    drop_all_of-Keeps a p root_of locs (c ∷ cs) =
        Keeps-bind _ _ (drop_one-Keeps a p root_of locs c)
          λ u. drop_all_of-Keeps a p root_of locs cs

    pub drop_spool_companions-Keeps :
        (a : Asset) (p : Place) (root_of : Location → Option Text)
        → Kept (drop_spool_companions sha256 env a p root_of)
    unfolding drop_spool_companions
    drop_spool_companions-Keeps a p root_of = search (kept_rules, drop_all_of-Keeps) depth 8
