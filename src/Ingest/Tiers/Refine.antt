-- ===== src/Ingest/Tiers/Refine.antt =====
-- Spool and Archive of ingest/steps.go refine the moves of the tiers.

use mediamanager.Ingest.Tiers.{Holding, held}
use mediamanager.Ingest.Tiers.Spooling.{
  Reached, Reached-here, choose-In, Backed, Free, archive_all-Reached,
}
use mediamanager.Ingest.Tiers.Rows.{Stands, copies-held, held-copies}
use mediamanager.Ingest.{has_complete}
use mediamanager.Catalog.Locations.{all_locations}
use mediamanager.Ingest.Kept.{On, ask-Ensures, query-Ensures}
use mediamanager.Base.{
  ℕ, ◌≡◌, refl, sym, subst, inl, inr, true, false, ◌&&◌, Option, some, List, [], ◌∷◌, arith,
  nat_eq_iff, Bool-cases, All, In, In-any, Text, ℕ_eq, Text_eq, Pair_eq, ◌==◌, ok,
}
use mediamanager.Base.Exec.Keeps.{Ensures, Ensures-bind, always, Ensures-weaken, Ensures-fact}
use mediamanager.Ingest.Store.{Store}
use mediamanager.Ingest.Env.{Env, Place, place_id, places, root_of_places, source_roots}
use mediamanager.Ingest.Transfer.{lookup, archive_all, archive_asset}
use mediamanager.Identity
use mediamanager.Table.{find, Distinct}
use mediamanager.Catalog.{
  LocationKind_eq, Location, Asset, complete, copy_state_eq_iff, CopyState_eq, JoinedCopy, Role_eq,
  Db, location_id_key, copy_key,
}
use mediamanager.Catalog.Copies.{copies}
use mediamanager.Catalog.Assets.Recorded.{asset-id}
use mediamanager.Catalog.Assets.{asset}

-- The places of a run as the catalog has them, each once.
pub record ArePlaces (db : Db) (ps : List Place) : Type 0 where
  pub apart : Distinct place_id ps
  pub recorded : All (λ (p : Place). find location_id_key p.cat.id db.locations ≡ some p.cat) ps

module _ (sha256 : Identity.Bytes → Identity.Bytes) (env : Env) (ps : List Place) (id : Text)
    (d : Db) where
  -- What lookup returns.
  abbrev pub Found : Asset × List JoinedCopy × List (ℕ × Text) → Store → Type 0
  Found r s = (s.db ≡ d) × (asset d id ≡ ok r.0) × (r.1 ≡ copies d id)

  sources_ok : Ensures (λ s. s.db ≡ d) (source_roots env) (λ r s. s.db ≡ d) (λ e s. s.db ≡ d)
  unfolding source_roots
  sources_ok = Ensures-bind _ _ (ask-Ensures d all_locations) λ ls. record { at = λ s k. k.0 }

  pub lookup-Found : Ensures (λ s. s.db ≡ d) (lookup sha256 env ps id) Found (λ e s. s.db ≡ d)
  unfolding lookup
  lookup-Found = Ensures-bind _ _ (query-Ensures d (λ db. asset db id)) λ a. Ensures-fact λ q.
      Ensures-bind _ _ (ask-Ensures d (λ db. copies db id)) λ cs.
        Ensures-fact λ k. Ensures-bind _ _ sources_ok λ sources. record { at = λ s e. (e, q, k) }

  module _ (keys : Distinct copy_key d.copies) where
    abbrev pub Held : Holding
    Held = held d.copies

    abbrev pub Ends : Store → Type 0
    Ends = Reached d.locations Held

    pub start : (s : Store) → s.db ≡ d → On (Stands d.locations Held) s
    start s q =
        subst (λ (x : Db). Stands d.locations Held x.copies x.locations) (sym q)
          (record { same_locations = refl; keys = keys; holds = λ a l. refl })

    pub start-Ends : (s : Store) → s.db ≡ d → Ends s
    start-Ends s q = Reached-here d.locations Held s (start s q)

    -- What Choose picks of the listed copies is held.
    pub backed :
        (a : Asset) (root_of : Location → Option Text)
        → asset d id ≡ ok a
        → Backed sha256 env d.locations ps a (copies d id) root_of Held
    backed a root_of q t e =
        let (c, m, k) = choose-In (copies d id) root_of t e in
        (
          c.copy.location_id,
          subst (λ i. Held i c.copy.location_id ≡ true) (sym (asset-id d id a q))
              (copies-held d id c keys m k),
        )

    -- A place where no complete copy is listed does not hold the asset.
    pub free_at :
        (a : Asset) (p : Place)
        → asset d id ≡ ok a
        → find location_id_key p.cat.id d.locations ≡ some p.cat
        → ((c : JoinedCopy)
            → In c (copies d id)
            → c.copy.state ≡ complete
            → c.copy.location_id ≡ p.cat.id
            → c.location ≡ p.cat
            → ⊥)
        → Held a.id p.cat.id ≡ false
    free_at a p q l not_there = elim (Bool-cases (Held a.id p.cat.id)) [
      | inr b ↦ b
      | inl b ↦
          let (c, k, e, m) =
            held-copies d id p.cat.id p.cat l
              (subst (λ i. Held i p.cat.id ≡ true) (asset-id d id a q) b) in
          absurd (not_there (record { copy = c; location = p.cat }) m k e refl)
    ]

    not_listed :
        (p : Place)
        → has_complete (copies d id) p.cat.id ≡ false
        → (c : JoinedCopy) → In c (copies d id)
        → c.copy.state ≡ complete
        → c.copy.location_id ≡ p.cat.id
        → ⊥
    unfolding has_complete
    not_listed p n c m k e =
        let t =
          In-any (λ (x : JoinedCopy). x.copy.location_id == p.cat.id && x.copy.state == complete) c
            (copies d id) m
            (ground (
              arith,
              nat_eq_iff c.copy.location_id p.cat.id,
              (copy_state_eq_iff c.copy.state complete).1 k,
              e,
            )) in
        ground (arith, t, n)

    copies-Free :
        (a : Asset) (root_of : Location → Option Text) (qs : List Place)
        → asset d id ≡ ok a
        → All (λ (p : Place). find location_id_key p.cat.id d.locations ≡ some p.cat) qs
        → Free sha256 env d.locations ps a (copies d id) root_of Held qs
    copies-Free a root_of [] q r = tt
    copies-Free a root_of (p ∷ qs) q r = (
      λ n. free_at a p q r.0 (λ c m k e u. not_listed p n c m k e),
      copies-Free a root_of qs q r.1,
    )

    archive_ok :
        ArePlaces d ps
        → Ensures (λ s. s.db ≡ d) (archive_asset sha256 env ps id) (λ r. Ends) (λ e. Ends)
    unfolding archive_asset
    archive_ok places =
        Ensures-bind _ _ (Ensures-weaken _ (λ r s k. k) (λ e s k. start-Ends s k) lookup-Found) λ r.
          record {
            at = λ s k.
                (subst
                    (λ cs.
                      Ensures (On (Stands d.locations Held))
                        (archive_all sha256 env ps r.0 cs (root_of_places ps r.2) ps) (λ x. Ends)
                        (λ e. Ends))
                    (sym k.2)
                    (archive_all-Reached sha256 env d.locations ps r.0 (copies d id)
                      (root_of_places ps r.2) Held ps places.apart
                      (copies-Free r.0 (root_of_places ps r.2) ps k.1 places.recorded)
                      (backed r.0 (root_of_places ps r.2) k.1))).at
                  s (start s k.0);
          }

-- Whichever call of Archive fails, what it has done to the copies of the catalog is a series of
-- moves that a holding of assets by locations allows: copies made while another location holds
-- the asset, or dropped while a NAS does. No two copies in the catalog had one key, and it has
-- the places, each once.
pub archive_asset-Reached :
    (sha256 : Identity.Bytes → Identity.Bytes) (env : Env) (ps : List Place) (id : Text) (s : Store)
    → Distinct copy_key s.db.copies
    → ArePlaces s.db ps
    → Reached s.db.locations (held s.db.copies) (archive_asset sha256 env ps id s).1
archive_asset-Reached sha256 env ps id s keys places =
    always (Reached s.db.locations (held s.db.copies)) _ _
      ((archive_ok sha256 env ps id s.db keys places).at s refl)
