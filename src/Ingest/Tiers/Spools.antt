-- ===== src/Ingest/Tiers/Spools.antt =====
-- Spool of ingest/steps.go refines the moves of the tiers.

use mediamanager.Base.Exec.{◌>>=◌}
use mediamanager.Ingest.Tiers.Spooling.{Reached, copy_to-Moves}
use mediamanager.Ingest.Store.{Store, Failure, from_result}
use mediamanager.Base.Exec.Keeps.{Ensures, Ensures-bind, always, Ensures-weaken, Ensures-from}
use mediamanager.Base.{
  ℕ, ◌≡◌, refl, sym, ap, ◌∙◌, subst, inl, inr, true, false, ◌&&◌, Option, none, some, List, [], ◌∷◌,
  ◌++◌, arith, if◌then◌else◌, nat_eq_iff, Bool-cases, Option-cases, All, In, All-In,
  In-append_right, first-none, Text, ℕ_eq, Text_eq, Pair_eq, ◌==◌, Result, err, ok,
}
use mediamanager.Ingest.Env.{Env, Place, place_id, place_root, source_key, root_of_places}
use mediamanager.Ingest.Tiers.{held}
use mediamanager.Ingest.Tiers.Refine.{ArePlaces, lookup-Found, start, start-Ends, backed, free_at}
use mediamanager.Ingest.Transfer.{copy_to, spooled_at, pick_spool, skip_or, spool_asset}
use mediamanager.Ingest.Transfer.Room.{pick_spool-FirstRoom}
use mediamanager.Identity
use mediamanager.Table.{find, Distinct}
use mediamanager.Catalog.{
  spool, location_kind_eq_iff, LocationKind_eq, Location, Asset, complete, copy_state_eq_iff,
  CopyState_eq, JoinedCopy, Role_eq, Db, location_id_key, copy_key,
}
use mediamanager.Catalog.Copies.{copies}
use mediamanager.Catalog.Assets.{asset}

-- A root that is found stays found.
place_root-some :
    (id : ℕ) (ps : List Place) (r : Text) → (t : Text) × (place_root id ps (some r) ≡ some t)
unfolding place_root
place_root-some id [] r = (r, refl)
place_root-some id (p ∷ ps) r = elim (Bool-cases (p.mounted && p.cat.id == id)) [
  | inl b ↦ let (t, q) = place_root-some id ps p.root in (t, ground (arith, b, q))
  | inr b ↦ let (t, q) = place_root-some id ps r in (t, ground (arith, b, q))
]

place_root-In :
    (p : Place) (ps : List Place) (o : Option Text)
    → In p ps
    → p.mounted ≡ true
    → (t : Text) × (place_root p.cat.id ps o ≡ some t)
unfolding place_root
place_root-In p [] o m k = absurd m
place_root-In p (x ∷ ps) o (inl e) k =
    let (t, q) = place_root-some p.cat.id ps x.root in
    let b : (x.mounted && x.cat.id == p.cat.id) ≡ true =
      ground
        (arith, ap (λ (z : Place). z.mounted) e ∙ k, ap place_id e, nat_eq_iff x.cat.id p.cat.id) in
    (t, ap (λ b. place_root p.cat.id ps (if b then some x.root else o)) b ∙ q)
place_root-In p (x ∷ ps) o (inr m) k =
    place_root-In p ps (if x.mounted && x.cat.id == p.cat.id then some x.root else o) m k

-- A mounted place has a root.
root_of_places-In :
    (p : Place) (ps : List Place) (sources : List (ℕ × Text))
    → In p ps
    → p.mounted ≡ true
    → (t : Text) × (root_of_places ps sources p.cat ≡ some t)
unfolding root_of_places
root_of_places-In p ps sources m k = elim (Option-cases (find source_key p.cat.id sources)) [
  | inr (e, q) ↦ (e.1, ground (arith, q))
  | inl q ↦ let (t, r) = place_root-In p ps none m k in (t, ground (arith, q, r))
]

In-middle : {A : Type 0} (x : A) (xs ys : List A) → In x (xs ++ (x ∷ ys))
In-middle x xs ys = In-append_right x xs (x ∷ ys) (inl refl)

module _ (sha256 : Identity.Bytes → Identity.Bytes) (env : Env) (ps : List Place) (id : Text)
    (d : Db) (keys : Distinct copy_key d.copies) where
  -- Where Spool is no no-op, the place that it picks does not hold the asset.
  picked_free :
      (a : Asset) (sources : List (ℕ × Text)) (p : Place)
      → asset d id ≡ ok a
      → spooled_at sha256 env (copies d id) (root_of_places ps sources) ≡ none
      → All (λ (p : Place). find location_id_key p.cat.id d.locations ≡ some p.cat) ps
      → pick_spool sha256 env a ps ≡ ok p
      → held d.copies a.id p.cat.id ≡ false
  unfolding spooled_at
  picked_free a sources p q n known k =
      let f = pick_spool-FirstRoom sha256 env a ps p k in
      let m : In p ps = subst (In p) (sym f.here) (In-middle p f.before f.after) in
      let mounted : p.mounted ≡ true = ground (arith, f.room.candidate) in
      let on_spool : p.cat.kind ≡ spool =
        (location_kind_eq_iff p.cat.kind spool).0 (ground (arith, f.room.candidate, mounted)) in
      let (t, r) = root_of_places-In p ps sources m mounted in
      free_at sha256 env ps id d keys a p q (All-In _ ps known m) λ c i e l same.
        let out = first-none _ c (copies d id) n i in
        ground (
          arith,
          out,
          ap (root_of_places ps sources) same ∙ r,
          (copy_state_eq_iff c.copy.state complete).1 e,
          (location_kind_eq_iff c.location.kind spool).1
              (ap (λ (z : Location). z.kind) same ∙ on_spool),
        )

  -- The rest of Spool, once the asset is looked up.
  spool_rest-Ends :
      (a : Asset) (sources : List (ℕ × Text))
      → asset d id ≡ ok a
      → ArePlaces d ps
      → (o : Option JoinedCopy)
      → spooled_at sha256 env (copies d id) (root_of_places ps sources) ≡ o
      → (p : Result Failure Place) → pick_spool sha256 env a ps ≡ p
      → Ensures
          (λ s. s.db ≡ d)
          (skip_or sha256 env id o (do
            dest ← from_result (λ e. e) p
            copy_to sha256 env ps a (copies d id) (root_of_places ps sources) dest))
          (λ r. Reached d.locations (held d.copies))
          (λ e. Reached d.locations (held d.copies))
  spool_rest-Ends a sources q known (some c) n p k = record {
    at = λ s e. start-Ends sha256 env ps id d keys s e;
  }
  spool_rest-Ends a sources q known none n (err x) k = record {
    at = λ s e. start-Ends sha256 env ps id d keys s e;
  }
  spool_rest-Ends a sources q known none n (ok p) k =
      Ensures-from (λ s e. start sha256 env ps id d keys s e)
        (Ensures-weaken _ (λ r s z. record { now = _; moves = z.1; stands = z.0 }) (λ e s z. z)
          (copy_to-Moves sha256 env d.locations ps a (copies d id) (root_of_places ps sources)
            (held d.copies) p (picked_free a sources p q n known.recorded k)
            (backed sha256 env ps id d keys a (root_of_places ps sources) q)))

  spool_ok :
      ArePlaces d ps
      → Ensures
          (λ s. s.db ≡ d)
          (spool_asset sha256 env ps id)
          (λ r. Reached d.locations (held d.copies))
          (λ e. Reached d.locations (held d.copies))
  unfolding spool_asset
  spool_ok known =
      Ensures-bind _ _
        (Ensures-weaken _ (λ r s k. k) (λ e s k. start-Ends sha256 env ps id d keys s k)
          (lookup-Found sha256 env ps id d))
        λ r. record {
          at = λ s k.
              (subst
                  (λ cs.
                    Ensures (λ s. s.db ≡ d)
                      (skip_or sha256 env id (spooled_at sha256 env cs (root_of_places ps r.2)) (do
                        dest ← from_result (λ e. e) (pick_spool sha256 env r.0 ps)
                        copy_to sha256 env ps r.0 cs (root_of_places ps r.2) dest))
                      (λ x. Reached d.locations (held d.copies))
                      (λ e. Reached d.locations (held d.copies)))
                  (sym k.2) (spool_rest-Ends r.0 r.2 k.1 known _ refl _ refl)).at
                s k.0;
        }

-- Whichever call of Spool fails, what it has done to the copies of the catalog is a series of
-- moves that a holding of assets by locations allows: copies made while another location holds
-- the asset, or dropped while a NAS does. No two copies in the catalog had one key, and it has
-- the places, each once.
pub spool_asset-Reached :
    (sha256 : Identity.Bytes → Identity.Bytes) (env : Env) (ps : List Place) (id : Text) (s : Store)
    → Distinct copy_key s.db.copies
    → ArePlaces s.db ps
    → Reached s.db.locations (held s.db.copies) (spool_asset sha256 env ps id s).1
spool_asset-Reached sha256 env ps id s keys known =
    always (Reached s.db.locations (held s.db.copies)) _ _
      ((spool_ok sha256 env ps id s.db keys known).at s refl)
