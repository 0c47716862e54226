-- ===== src/Ingest/Tiers/Flushes.antt =====
-- Flush of ingest/steps.go refines the moves of the tiers.

use mediamanager.Ingest.Reconcile.{reconcile_trees}
use mediamanager.Base.Exec.{pure, ◌>>=◌}
use mediamanager.Ingest.Kept.Links.{source_roots-Keeps, reconcile_trees-Keeps}
use mediamanager.Base.{
  ℕ, ◌≡◌, refl, sym, ap, ◌∙◌, subst, ◌≢◌, inl, inr, Bool, true, false, ◌&&◌, not, Option, none,
  some, List, [], ◌∷◌, arith, if◌then◌else◌, Bool-cases, is_empty, In, Text, text_eq_iff, ℕ_eq,
  Text_eq, Pair_eq, ◌==◌, Result, err, ok,
}
use mediamanager.Base.Exec.Keeps.{
  Keeps, Post, Ensures, Keeps-pure, Keeps-Ensures, Keeps-bind, Ensures-bind, always, Ensures-weaken,
  Ensures-if, Ensures-fact, Ensures-from,
}
use mediamanager.Ingest.Store.{Store, Step}
use mediamanager.Ingest.Env.{Env, Place, root_of_places}
use mediamanager.Ingest.Kept.{On, ask-Keeps, on_files-Keeps, statement-Ensures, ask-Ensures}
use mediamanager.Ingest.Kept.Steps.{drop_spool_companions-Keeps}
use mediamanager.Ingest.Tiers.{
  Holding, with_copy, Drops, none_dropped, one_dropped, Drops-trans, Drops-Moves, held, IsNasIn,
}
use mediamanager.Ingest.Tiers.Rows.{Stands, delete_copy-Stands, copies-held}
use mediamanager.Ingest.Tiers.Spooling.{Reached}
use mediamanager.Ingest.{Reason, abs}
use mediamanager.Ingest.Flush.{flush_pair-Verified}
use mediamanager.Ingest.Flushing.{
  FlushOptions, FlushReport, nothing_flushed, content_of, judged, flush_judged, flush_one, enough,
  too_new, flush_all, spool_named, ready_spool, flush,
}
use mediamanager.Ingest.Companions.{remove_if_there}
use mediamanager.Files
use mediamanager.Identity
use mediamanager.Base.Sorting.{In-sort}
use mediamanager.Table.{find, Distinct}
use mediamanager.Catalog.Worklists.{flushable}
use mediamanager.Catalog.{
  spool, location_kind_eq_iff, LocationKind_eq, Location, Asset, CopyState_eq, JoinedCopy, Role_eq,
  Db, location_id_key, copy_key,
}
use mediamanager.Catalog.Copies.{nearer, copies}
use mediamanager.Catalog.Copies.Joined.{In-joined}

-- A copy may be dropped: another one is held on a NAS.
record MayDrop (ls0 : List Location) (h : Holding) (id : Text) (on : ℕ) : Type 0 where
  kept : ℕ
  apart : kept ≢ on
  on_nas : IsNasIn ls0 kept
  held_there : h id kept ≡ true

module _ (ls0 : List Location) (OnSpool : ℕ → Type 0) where
  -- The store's copies are what some drops make of a holding.
  pub record Emptied (h : Holding) (s : Store) : Type 0 where
    pub now : Holding
    pub drops : Drops (IsNasIn ls0) OnSpool h now
    pub stands : On (Stands ls0 now) s

  Emptied-here : (h : Holding) (s : Store) → On (Stands ls0 h) s → Emptied h s
  Emptied-here h s k = record { now = h; drops = none_dropped h; stands = k }

  Emptied-after :
      (h h' : Holding) (s : Store) → Drops (IsNasIn ls0) OnSpool h h' → Emptied h' s → Emptied h s
  Emptied-after h h' s m r = record {
    now = r.now;
    drops = Drops-trans h h' r.now m r.drops;
    stands = r.stands;
  }

-- The mounted spool of that name.
pub record IsSpoolOf (ps : List Place) (name : Text) (on : ℕ) : Type 0 where
  pub place : Place
  pub listed : In place ps
  pub there : place.cat.id ≡ on
  pub named : place.cat.name ≡ name
  pub is_spool : place.cat.kind ≡ spool
  pub mounted : place.mounted ≡ true

-- The location that a listed copy is joined with.
listed_location :
    (db : Db) (id : Text) (c : JoinedCopy)
    → In c (copies db id)
    → find location_id_key c.copy.location_id db.locations ≡ some c.location
unfolding copies
listed_location db id c m = (In-joined db c _ (In-sort nearer c _ m)).1

module _ (sha256 : Identity.Bytes → Identity.Bytes) (env : Env) (ls0 : List Location)
    (OnSpool : ℕ → Type 0) (opts : FlushOptions) (p : Place) (root_of : Location → Option Text)
    (here : OnSpool p.cat.id) where
  judged-MayDrop :
      (a : Asset) (h : Holding) (s : Store) (pair : JoinedCopy × JoinedCopy)
      → On (Stands ls0 h) s
      → judged sha256 env a (copies s.db a.id) p root_of s ≡ ok pair
      → MayDrop ls0 h a.id p.cat.id
  unfolding judged
  judged-MayDrop a h s pair k q =
      let v =
        flush_pair-Verified sha256 (λ path. content_of (s.world.files path)) a (copies s.db a.id)
          p.cat.id p.root root_of pair q in
      let n = v.1.0 in
      record {
        kept = pair.1.copy.location_id;
        apart = n.apart;
        on_nas = record {
          location = pair.1.location;
          listed =
              ap (find location_id_key pair.1.copy.location_id) (sym k.same_locations)
              ∙ listed_location s.db a.id pair.1 n.listed;
          is_nas = n.on_nas;
        };
        held_there =
            sym (k.holds a.id pair.1.copy.location_id)
            ∙ copies-held s.db a.id pair.1 k.keys n.listed n.is_complete;
      }

  judged_ok :
      (a : Asset) (rep : FlushReport) (h : Holding) (r : Result Reason (JoinedCopy × JoinedCopy))
      → ((pair : JoinedCopy × JoinedCopy) → r ≡ ok pair → MayDrop ls0 h a.id p.cat.id)
      → Ensures
          (On (Stands ls0 h))
          (flush_judged sha256 env opts p root_of a rep r)
          (λ x. Emptied ls0 OnSpool h)
          (λ e. Emptied ls0 OnSpool h)
  unfolding flush_judged
  judged_ok a rep h (err why) m = record { at = λ s k. Emptied-here ls0 OnSpool h s k }
  judged_ok a rep h (ok pair) m =
      let may = m pair refl in
      let after = with_copy h a.id p.cat.id false in
      let move : Drops (IsNasIn ls0) OnSpool h after =
        one_dropped h after a.id p.cat.id may.kept here may.apart may.on_nas may.held_there
          (none_dropped after) in
      let there = λ (s : Store) (k : On (Stands ls0 after) s).
        Emptied-after ls0 OnSpool h after s move (Emptied-here ls0 OnSpool after s k) in
      Ensures-if opts.dry_run _ _ (λ q. record { at = λ s k. Emptied-here ls0 OnSpool h s k })
        λ q.
          Ensures-bind _ _
            (Ensures-weaken _ (λ u s k. k) (λ e s k. Emptied-here ls0 OnSpool h s k)
              (Keeps-Ensures (
                on_files-Keeps (Stands ls0 h) (remove_if_there (abs p.root pair.0.copy.rel_path)))))
            λ u.
              Ensures-bind _ _
                (Ensures-from (λ s k. (k, tt))
                  (Ensures-weaken _ (λ v s k. k.0) (λ e s k. Emptied-here ls0 OnSpool h s k.0)
                    (statement-Ensures (Stands ls0 h) (Stands ls0 after) (λ w. Unit) _
                      (delete_copy-Stands ls0 h a.id p.cat.id))))
                λ v.
                  Ensures-weaken _ (λ x s k. there s k) (λ e s k. there s k)
                    (Keeps-Ensures (
                      Keeps-bind _ _
                        (drop_spool_companions-Keeps (Stands ls0 after) sha256 env a p root_of)
                        λ x. Keeps-pure _))

  flush_one_ok :
      (a : Asset) (rep : FlushReport) (h : Holding)
      → Ensures
          (On (Stands ls0 h))
          (flush_one sha256 env opts p root_of a rep)
          (λ x. Emptied ls0 OnSpool h)
          (λ e. Emptied ls0 OnSpool h)
  unfolding flush_one
  flush_one_ok a rep h =
      Ensures-bind _ _
        (Ensures-weaken _ (λ u s k. k) (λ e s k. Emptied-here ls0 OnSpool h s k)
          (Keeps-Ensures (on_files-Keeps (Stands ls0 h) Files.check_context)))
        λ u. record {
          at = λ s k.
              (Ensures-bind _ _
                  (Ensures-weaken _ (λ cs t e. e)
                    (λ x t e. Emptied-here ls0 OnSpool h t (moved_on s t k e))
                    (ask-Ensures s.db (λ db. copies db a.id)))
                  (λ cs. record { at = λ t e. at_state s t cs k e.0 e.1 })).at
                s refl;
        }
    where
      moved_on : (s t : Store) → On (Stands ls0 h) s → t.db ≡ s.db → On (Stands ls0 h) t
      moved_on s t k e = subst (λ (d : Db). Stands ls0 h d.copies d.locations) (sym e) k

      at_state :
          (s t : Store) (cs : List JoinedCopy)
          → On (Stands ls0 h) s
          → t.db ≡ s.db
          → cs ≡ copies s.db a.id
          → Post
              (λ x. Emptied ls0 OnSpool h)
              (λ e. Emptied ls0 OnSpool h)
              (flush_judged sha256 env opts p root_of a rep
                (judged sha256 env a cs p root_of t)
                t).0
              (flush_judged sha256 env opts p root_of a rep
                (judged sha256 env a cs p root_of t)
                t).1
      at_state s t cs k e q =
          (judged_ok a rep h (judged sha256 env a cs p root_of t) λ pair j.
              judged-MayDrop a h t pair (moved_on s t k e) (
                ap (λ l. judged sha256 env a l p root_of t)
                  (ap (λ (d : Db). copies d a.id) e ∙ sym q)
                ∙ j)).at
            t (moved_on s t k e)

  flush_all_ok :
      (cands : List Asset) (rep : FlushReport) (h : Holding)
      → Ensures
          (On (Stands ls0 h))
          (flush_all sha256 env opts p root_of cands rep)
          (λ x. Emptied ls0 OnSpool h)
          (λ e. Emptied ls0 OnSpool h)
  unfolding flush_all
  flush_all_ok [] rep h = record { at = λ s k. Emptied-here ls0 OnSpool h s k }
  flush_all_ok (a ∷ more) rep h =
      Ensures-if (enough sha256 env opts rep) _ _
        (λ q. record { at = λ s k. Emptied-here ls0 OnSpool h s k })
        λ q.
          Ensures-if (too_new sha256 env opts a) _ _ (λ t. flush_all_ok more rep h)
            λ t. Ensures-bind _ _ (flush_one_ok a rep h) λ rep'. record {
              at = λ s r.
                  (Ensures-weaken _ (λ x t k. Emptied-after ls0 OnSpool h r.now t r.drops k)
                      (λ e t k. Emptied-after ls0 OnSpool h r.now t r.drops k)
                      (flush_all_ok more rep' r.now)).at
                    s r.stands;
            }

module _ (sha256 : Identity.Bytes → Identity.Bytes) (env : Env) where
  module _ (ls0 : List Location) (OnSpool : ℕ → Type 0) (h : Holding) where
    still :
        {A : Type 0} (m : Step A)
        → Keeps (On (Stands ls0 h)) m
        → Ensures (On (Stands ls0 h)) m (λ a. On (Stands ls0 h)) (λ e. Emptied ls0 OnSpool h)
    still m k =
        Ensures-weaken m (λ a s z. z) (λ e s z. Emptied-here ls0 OnSpool h s z) (Keeps-Ensures k)

    relinked_ok :
        (ps : List Place) (rep : FlushReport) (b : Bool)
        → Ensures
            (Emptied ls0 OnSpool h)
            (if b then (do links ← reconcile_trees sha256 env ps; pure rep) else pure rep)
            (λ x. Emptied ls0 OnSpool h)
            (λ e. Emptied ls0 OnSpool h)
    relinked_ok ps rep b =
        Ensures-if b _ _
          (λ q. record {
            at = λ s r.
                (Ensures-weaken _ (λ x t k. record { now = r.now; drops = r.drops; stands = k })
                    (λ e t k. record { now = r.now; drops = r.drops; stands = k })
                    (Keeps-Ensures (
                      Keeps-bind _ _ (reconcile_trees-Keeps (Stands ls0 r.now) sha256 env ps)
                        λ links. Keeps-pure _))).at
                  s r.stands;
          })
          λ q. record { at = λ s r. r }

  spool_named-IsSpoolOf :
      (ps all : List Place) (name : Text) (found : Option Place) (p : Place)
      → ((q : Place) → In q ps → In q all)
      → ((q : Place) → found ≡ some q → In q all × (q.cat.name ≡ name) × (q.cat.kind ≡ spool))
      → spool_named sha256 env name ps found ≡ some p
      → In p all × (p.cat.name ≡ name) × (p.cat.kind ≡ spool)
  unfolding spool_named
  spool_named-IsSpoolOf [] all name found p m k e = k p e
  spool_named-IsSpoolOf (q ∷ ps) all name found p m k e =
      elim (Bool-cases (q.cat.name == name && q.cat.kind == spool)) [
        | inl b ↦
            spool_named-IsSpoolOf ps all name (some q) p (λ r i. m r (inr i))
              (λ r z. (
                m r (inl (cc)),
                ground (arith, b, z, text_eq_iff q.cat.name name),
                ground (arith, b, z, location_kind_eq_iff q.cat.kind spool),
              ))
              (subst (λ x. spool_named sha256 env name ps (if x then some q else found) ≡ some p) b
                e)
        | inr b ↦
            spool_named-IsSpoolOf ps all name found p (λ r i. m r (inr i)) k
              (subst (λ x. spool_named sha256 env name ps (if x then some q else found) ≡ some p) b
                e)
      ]

  module _ (ls0 : List Location) (h : Holding) where
    ready_ok :
        (ps : List Place) (name : Text) (o : Option Place)
        → spool_named sha256 env name ps none ≡ o
        → Ensures
            (On (Stands ls0 h))
            (ready_spool sha256 env o)
            (λ p s. On (Stands ls0 h) s × IsSpoolOf ps name p.cat.id)
            (λ e. Emptied ls0 (IsSpoolOf ps name) h)
    ready_ok ps name none e = record { at = λ s k. Emptied-here ls0 (IsSpoolOf ps name) h s k }
    ready_ok ps name (some p) e =
        let (i, n, k) = spool_named-IsSpoolOf ps ps name none p (λ q m. m) (λ q z. absurd (cc)) e in
        Ensures-if p.mounted _ _
          (λ m. record {
            at = λ s z. (
              z,
              record { place = p; listed = i; there = refl; named = n; is_spool = k; mounted = m },
            );
          })
          λ m. record { at = λ s z. Emptied-here ls0 (IsSpoolOf ps name) h s z }

    flush_ok :
        (ps : List Place) (spool_name : Text) (opts : FlushOptions)
        → Ensures
            (On (Stands ls0 h))
            (flush sha256 env ps spool_name opts)
            (λ x. Emptied ls0 (IsSpoolOf ps spool_name) h)
            (λ e. Emptied ls0 (IsSpoolOf ps spool_name) h)
    unfolding flush
    flush_ok ps spool_name opts =
        let OnSpool = IsSpoolOf ps spool_name in
        Ensures-bind _ _ (ready_ok ps spool_name (spool_named sha256 env spool_name ps none) refl)
          λ p. Ensures-fact λ here.
            Ensures-bind _ _ (still ls0 OnSpool h _ (source_roots-Keeps (Stands ls0 h) env))
              λ sources.
                Ensures-bind _ _
                  (still ls0 OnSpool h _ (ask-Keeps (Stands ls0 h) (λ db. flushable db p.cat.id)))
                  λ cands.
                    Ensures-bind _ _
                      (flush_all_ok sha256 env ls0 OnSpool opts p (root_of_places ps sources) here
                        cands nothing_flushed h)
                      λ rep.
                        relinked_ok ls0 OnSpool h ps rep
                          (not opts.dry_run && not (is_empty rep.flushed))

-- Whichever call of Flush fails, and wherever it is cancelled, what it has done to the copies of
-- the catalog is a series of drops, and no copy is made: each drops a copy on a mounted place
-- that is a spool of the given name, while another location, which is a NAS, holds the asset. No
-- two copies in the catalog had one key.
pub flush-Emptied :
    (sha256 : Identity.Bytes → Identity.Bytes) (env : Env) (ps : List Place) (spool_name : Text)
    (opts : FlushOptions) (s : Store)
    → Distinct copy_key s.db.copies
    → Emptied s.db.locations
        (IsSpoolOf ps spool_name)
        (held s.db.copies)
        (flush sha256 env ps spool_name opts s).1
flush-Emptied sha256 env ps spool_name opts s keys =
    always (Emptied s.db.locations (IsSpoolOf ps spool_name) (held s.db.copies)) _ _ (
      (flush_ok sha256 env s.db.locations (held s.db.copies) ps spool_name opts).at s
        (record { same_locations = refl; keys = keys; holds = λ a l. refl }))

-- The drops of Flush are moves of the tiers.
pub flush-Reached :
    (sha256 : Identity.Bytes → Identity.Bytes) (env : Env) (ps : List Place) (spool_name : Text)
    (opts : FlushOptions) (s : Store)
    → Distinct copy_key s.db.copies
    → Reached s.db.locations (held s.db.copies) (flush sha256 env ps spool_name opts s).1
flush-Reached sha256 env ps spool_name opts s keys =
    let r = flush-Emptied sha256 env ps spool_name opts s keys in
    record { now = r.now; moves = Drops-Moves (held s.db.copies) r.now r.drops; stands = r.stands }
