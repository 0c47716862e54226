-- ===== src/Ingest/Import/SafeToFormat.antt =====
-- What SafeToFormat and AllArchivedOn of ingest/import.go mean: rule R6.

use mediamanager.Base.Exec.{pure, ◌>>=◌}
use mediamanager.Base.{
  ◌≡◌, refl, sym, ap, ◌∙◌, subst, Bool, true, false, ◌&&◌, not, Option, none, some, List, [], ◌∷◌,
  arith, nat_eq_iff, is_empty, any, All, In, any-In, Text, ℕ_eq, Text_eq, Pair_eq, ◌==◌, Result,
  err, ok,
}
use mediamanager.Base.Exec.Keeps.{
  Post, Ensures, Ensures-bind, Ensures-weaken, Ensures-fact, Ensures-nothing, Post-ok,
}
use mediamanager.Ingest.Store.{Store, Failure, Step, ask, on_files, as_option, tried}
use mediamanager.Ingest.Env.{Env, Place, places}
use mediamanager.Ingest.Import.{
  Summary, empty_summary, is_archived_copy, archived, import_all, archive_left, left_over, if_so,
  all_archived, import_source,
}
use mediamanager.Clock.{Time}
use mediamanager.Scan.{File}
use mediamanager.Scan.Walk.{Entries}
use mediamanager.Files.{check_context}
use mediamanager.Ingest.Scanned.{Source, scan_source}
use mediamanager.Ingest.Reconcile.{reconcile_trees}
use mediamanager.Ingest.Kept.{ask-Ensures}
use mediamanager.Identity
use mediamanager.Catalog.Worklists.{needs_archive}
use mediamanager.Catalog.{
  nas, location_kind_eq_iff, LocationKind_eq, complete, copy_state_eq_iff, CopyState_eq, JoinedCopy,
  Role_eq, Db,
}
use mediamanager.Catalog.Copies.{copies}

-- The catalog has a complete copy of the asset on a NAS that is one of the mounted places.
pub record OnMountedNas (db : Db) (ps : List Place) (id : Text) : Type 0 where
  pub copy : JoinedCopy
  pub listed : In copy (copies db id)
  pub is_complete : copy.copy.state ≡ complete
  pub on_nas : copy.location.kind ≡ nas
  pub place : Place
  pub of_run : In place ps
  pub there : place.cat.id ≡ copy.copy.location_id
  pub mounted : place.mounted ≡ true

any-OnMountedNas :
    (db : Db) (ps : List Place) (id : Text)
    → any (is_archived_copy ps) (copies db id) ≡ true
    → OnMountedNas db ps id
unfolding is_archived_copy
any-OnMountedNas db ps id q =
    let (c, m, k) = any-In (is_archived_copy ps) (copies db id) q in
    let (p, i, e) =
      any-In (λ (p : Place). p.cat.id == c.copy.location_id && p.mounted) ps (ground (arith, k)) in
    record {
      copy = c;
      listed = m;
      is_complete = (copy_state_eq_iff c.copy.state complete).0 (ground (arith, k));
      on_nas = (location_kind_eq_iff c.location.kind nas).0 (ground (arith, k));
      place = p;
      of_run = i;
      there = ground (arith, e, nat_eq_iff p.cat.id c.copy.location_id);
      mounted = ground (arith, e);
    }

module _ (ps : List Place) (d : Db) where
  pub archived_ok :
      (id : Text)
      → Ensures
          (λ s. s.db ≡ d)
          (archived ps id)
          (λ b s. (s.db ≡ d) × (b ≡ true → OnMountedNas d ps id))
          (λ e s. s.db ≡ d)
  unfolding archived
  archived_ok id = Ensures-bind _ _ (ask-Ensures d (λ db. copies db id)) λ cs. record {
    at = λ s k. (k.0, λ q. any-OnMountedNas d ps id (ap (any (is_archived_copy ps)) (sym k.1) ∙ q));
  }

  module _ (sha256 : Identity.Bytes → Identity.Bytes) (env : Env) where
    -- A yes is a yes for every asset.
    abbrev pub Answers : List Text → Bool → Store → Type 0
    Answers ids b s = (s.db ≡ d) × (b ≡ true → All (OnMountedNas d ps) ids)

    if_so_ok :
        (id : Text) (ids : List Text) (rest : Step Bool)
        → Ensures (λ s. s.db ≡ d) rest (Answers ids) (λ e s. s.db ≡ d)
        → (o : Option Bool)
        → Ensures
            (λ s. (s.db ≡ d) × (o ≡ some true → OnMountedNas d ps id))
            (if_so sha256 env rest o)
            (Answers (id ∷ ids))
            (λ e s. s.db ≡ d)
    if_so_ok id ids rest k none = record { at = λ s h. (h.0, λ q. cc) }
    if_so_ok id ids rest k (some false) = record { at = λ s h. (h.0, λ q. cc) }
    if_so_ok id ids rest k (some true) =
        Ensures-fact
          λ yes. Ensures-weaken rest (λ b s h. (h.0, λ q. (yes refl, h.1 q))) (λ e s h. h) k

    tried_ok :
        (id : Text)
        → Ensures
            (λ s. s.db ≡ d)
            (tried (archived ps id))
            (λ o s. (s.db ≡ d) × (o ≡ some true → OnMountedNas d ps id))
            (λ e s. s.db ≡ d)
    tried_ok id = record {
      at = λ s h. at (archived ps id s).0 (archived ps id s).1 ((archived_ok id).at s h);
    }
      where
        at :
            (r : Result Failure Bool) (t : Store)
            → Post (λ b s. (s.db ≡ d) × (b ≡ true → OnMountedNas d ps id)) (λ e s. s.db ≡ d) r t
            → Post
                (λ o s. (s.db ≡ d) × (o ≡ some true → OnMountedNas d ps id))
                (λ e s. s.db ≡ d)
                (as_option (r, t)).0
                (as_option (r, t)).1
        at (ok b) t k = (k.0, λ q. k.1 (cc))
        at (err e) t k = (k, λ q. cc)

    pub all_archived_ok :
        (ids : List Text)
        → Ensures (λ s. s.db ≡ d) (all_archived sha256 env ps ids) (Answers ids) (λ e s. s.db ≡ d)
    unfolding all_archived
    all_archived_ok [] = record { at = λ s h. (h, λ q. tt) }
    all_archived_ok (id ∷ ids) =
        Ensures-bind _ _ (tried_ok id) λ o. if_so_ok id ids _ (all_archived_ok ids) o

module _ (sha256 : Identity.Bytes → Identity.Bytes) (env : Env) (capture_time : File → Time)
    (entries : Text → Entries) (root : Text) where
  -- SafeToFormat is true of archived assets only; s0 is the state the import starts in.
  abbrev IsSafe : Store → Source × Summary → Store → Type 0
  IsSafe s0 r s =
      r.1.safe_to_format ≡ true
      → (ps : List Place) × ((places env s0).0 ≡ ok ps) × All (OnMountedNas s.db ps) r.0.assets

  -- The places that the import works with.
  places_ok :
      (s0 : Store)
      → Ensures
          (λ s. s ≡ s0)
          (places env)
          (λ ps s. Unit {0} × ((places env s0).0 ≡ ok ps))
          (λ e s. Unit {0})
  places_ok s0 = record {
    at = λ s h. at (places env s).0 (places env s).1 (ap (λ t. (places env t).0) (sym h));
  }
    where
      at :
          (r : Result Failure (List Place)) (t : Store)
          → (places env s0).0 ≡ r
          → Post (λ ps s. Unit {0} × ((places env s0).0 ≡ ok ps)) (λ e s. Unit {0}) r t
      at (ok ps) t e = (tt, e)
      at (err e) t q = tt

  last_check :
      (s0 : Store) (ps : List Place)
      → (places env s0).0 ≡ ok ps
      → (src : Source) (sum : Summary)
      → Ensures
          (λ s. Unit {0})
          (do
            safe ← all_archived sha256 env ps src.assets
            pure (src, record sum { safe_to_format = not (is_empty src.assets) && safe }))
          (IsSafe s0)
          (λ e s. Unit {0})
  last_check s0 ps w src sum = record {
    at = λ s h.
        (Ensures-bind (all_archived sha256 env ps src.assets) _
            (Ensures-weaken _ (λ b t k. k) (λ e t k. tt)
              (all_archived_ok ps s.db sha256 env src.assets))
            (λ b. record {
              at = λ t k q. (
                ps,
                w,
                subst (λ (d : Db). All (OnMountedNas d ps) src.assets) (sym k.0)
                    (k.1 (ground (arith, q))),
              );
            })).at
          s refl;
  }

  import_ok :
      (s0 : Store)
      → Ensures
          (λ s. s ≡ s0)
          (import_source sha256 env capture_time entries root)
          (IsSafe s0)
          (λ e s. Unit {0})
  unfolding import_source
  import_ok s0 = Ensures-bind _ _ (places_ok s0) λ ps. Ensures-fact λ w.
      Ensures-bind _ _ (Ensures-nothing (reconcile_trees sha256 env ps)) λ before.
        Ensures-bind _ _ (Ensures-nothing (scan_source sha256 capture_time env entries root)) λ src.
          Ensures-bind _ _ (Ensures-nothing (reconcile_trees sha256 env ps)) λ linked.
            Ensures-bind _ _
              (Ensures-nothing (import_all sha256 env ps [] src.assets empty_summary))
              λ sum. Ensures-bind _ _ (Ensures-nothing (on_files check_context)) λ v.
                Ensures-bind _ _ (Ensures-nothing (tried (ask needs_archive))) λ found.
                  Ensures-bind _ _
                    (Ensures-nothing
                      (archive_left sha256 env ps src.assets (left_over sha256 env found) sum))
                    λ sum'.
                      Ensures-bind _ _ (Ensures-nothing (on_files check_context))
                        λ u. last_check s0 ps w src sum'

  -- Whichever failures an import meets on its way, when it returns with SafeToFormat set, the
  -- places were resolved, and the catalog has, for every asset that was scanned on the source, a
  -- complete copy on a NAS that is mounted among these places.
  pub import_source-OnMountedNas :
      (s : Store) (src : Source) (sum : Summary)
      → (import_source sha256 env capture_time entries root s).0 ≡ ok (src, sum)
      → sum.safe_to_format ≡ true
      → (ps : List Place) × ((places env s).0 ≡ ok ps)
        × All
            (OnMountedNas (import_source sha256 env capture_time entries root s).1.db ps)
            src.assets
  import_source-OnMountedNas s src sum q safe =
      Post-ok (IsSafe s) _ _ (src, sum) ((import_ok s).at s refl) q safe
