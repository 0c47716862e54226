-- ===== src/Ingest/Tiers/Runs.antt =====
-- The runs of Spool, Archive and Flush of ingest/steps.go in any order, each cut short anywhere, over a
-- catalog that only they change.
use mediamanager.Base.{
  ℕ, ◌≡◌, refl, sym, ◌∙◌, subst, fun_ext, true, some, List, All, Text, ℕ_eq, Text_eq, Pair_eq,
}
use mediamanager.Ingest.Store.{Store}
use mediamanager.Ingest.Env.{Env, Place}
use mediamanager.Ingest.Tiers.{Holding, Moves-never_lost, held}
use mediamanager.Ingest.Tiers.Rows.{Stands}
use mediamanager.Ingest.Tiers.Spooling.{Reached, Reached-here, Reached-after}
use mediamanager.Ingest.Tiers.Refine.{ArePlaces, archive_asset-Reached}
use mediamanager.Ingest.Tiers.Spools.{spool_asset-Reached}
use mediamanager.Ingest.Tiers.Flushes.{flush-Reached}
use mediamanager.Ingest.Transfer.{spool_asset, archive_asset}
use mediamanager.Ingest.Flushing.{FlushOptions, flush}
use mediamanager.Identity
use mediamanager.Table.{find, Distinct}
use mediamanager.Catalog.{
  LocationKind_eq, Location, CopyState_eq, Role_eq, Db, location_id_key, copy_key,
}

module _ (sha256 : Identity.Bytes → Identity.Bytes) (env : Env) (ps : List Place) where
  -- One run, or anything that happens outside the catalog.
  pub data Run : Store → Store → Type 0 where
    spooled : (s : Store) (id : Text) → Run s (spool_asset sha256 env ps id s).1
    archived : (s : Store) (id : Text) → Run s (archive_asset sha256 env ps id s).1
    flushed :
        (s : Store) (name : Text) (opts : FlushOptions) → Run s (flush sha256 env ps name opts s).1
    outside : (s t : Store) → t.db ≡ s.db → Run s t

  -- Any number of them.
  pub data Runs : Store → Store → Type 0 where
    none_yet : (s : Store) → Runs s s
    and_then : (s t u : Store) → Runs s t → Run t u → Runs s u

  Run-Reached :
      (s t : Store)
      → Distinct copy_key s.db.copies
      → ArePlaces s.db ps
      → Run s t
      → Reached s.db.locations (held s.db.copies) t
  Run-Reached s _ k a (spooled _ id) = spool_asset-Reached sha256 env ps id s k a
  Run-Reached s _ k a (archived _ id) = archive_asset-Reached sha256 env ps id s k a
  Run-Reached s _ k a (flushed _ name opts) = flush-Reached sha256 env ps name opts s k
  Run-Reached s t k a (outside _ _ e) = Reached-here s.db.locations (held s.db.copies) t (
      subst (λ (d : Db). Stands s.db.locations (held s.db.copies) d.copies d.locations) (sym e)
        (record { same_locations = refl; keys = k; holds = λ x l. refl }))

  Runs-Reached :
      (s t : Store)
      → Distinct copy_key s.db.copies
      → ArePlaces s.db ps
      → Runs s t
      → Reached s.db.locations (held s.db.copies) t
  Runs-Reached s _ k a (none_yet _) =
      Reached-here s.db.locations (held s.db.copies) s
        (record { same_locations = refl; keys = k; holds = λ x l. refl })
  Runs-Reached s u k a (and_then _ t _ rs r) =
      let here = Runs-Reached s t k a rs in
      let same_locations : t.db.locations ≡ s.db.locations = here.stands.same_locations in
      let same : held t.db.copies ≡ here.now = fun_ext λ x. fun_ext λ l. here.stands.holds x l in
      let next =
        Run-Reached t u here.stands.keys
          (record {
            apart = a.apart;
            recorded =
                subst
                  (λ (ls : List Location).
                    All (λ (p : Place). find location_id_key p.cat.id ls ≡ some p.cat) ps)
                  (sym same_locations) a.recorded;
          })
          r in
      Reached-after s.db.locations (held s.db.copies) here.now u here.moves (
        subst (λ (h : Holding). Reached s.db.locations h u) same
          (subst (λ (ls : List Location). Reached ls (held t.db.copies) u) same_locations next))

  -- Whatever runs of Spool, Archive and Flush are made, in any order, whichever of their calls
  -- fail and whatever happens to the files between them: an asset that some location held is
  -- held by some location, as the catalog has it. At the start no two copies in the catalog have
  -- one key, and it has the places, each once.
  pub Runs-never_lost :
      (s t : Store) (id : Text) (l : ℕ)
      → Distinct copy_key s.db.copies
      → ArePlaces s.db ps
      → Runs s t
      → held s.db.copies id l ≡ true
      → (k : ℕ) × (held t.db.copies id k ≡ true)
  Runs-never_lost s t id l keys a rs q =
      let r = Runs-Reached s t keys a rs in
      let (k, e) = Moves-never_lost (held s.db.copies) r.now id l r.moves q in
      (k, r.stands.holds id k ∙ e)
