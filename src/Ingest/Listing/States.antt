-- ===== src/Ingest/Listing/States.antt =====
-- assetStatus of ingest/import.go, against the states that its comment names.
use mediamanager.Base.{
  ◌≡◌, refl, sym, ap, ◌∙◌, inl, inr, Bool, true, false, ◌&&◌, ◌||◌, not, List, [], ◌∷◌, ◌++◌, map,
  arith, if◌then◌else◌, Bool-cases, keep, any, Text, codes, ℕ_eq, Text_eq, Pair_eq, ◌==◌,
}
use mediamanager.Ingest.Listing.{Flags, flagged, flags_of, label, no_flags, asset_status}
use mediamanager.Catalog.{
  partial, mismatch, copy_state_eq, CopyState, LocationKind, source, spool, nas, location_kind_eq,
  LocationKind_eq, Asset, complete, CopyState_eq, JoinedCopy, Role_eq,
}

abbrev at : LocationKind → JoinedCopy → Bool
at k c = c.copy.state == complete && c.location.kind == k

abbrev pub complete_copy : JoinedCopy → Bool
complete_copy c = c.copy.state == complete

-- A copy that is being made, or one that was found to differ.
abbrev incomplete : JoinedCopy → Bool
incomplete c = c.copy.state == partial || c.copy.state == mismatch

incomplete-not_complete : (c : JoinedCopy) → incomplete c ≡ not (complete_copy c)
unfolding copy_state_eq
incomplete-not_complete c = by_state c.copy.state
  where
    by_state : (x : CopyState) → (x == partial || x == mismatch) ≡ not (x == complete)
    by_state partial = refl
    by_state complete = refl
    by_state mismatch = refl

module _ (cs : List JoinedCopy) where
  -- The state by the tiers that hold the asset, whatever the order of the copies.
  abbrev pub tier_state : Text
  tier_state =
      if any (at nas) cs
      then (if any (at spool) cs then codes "archived" else codes "flushed")
      else if any (at spool) cs
      then codes "spooled"
      else if any (at source) cs
      then codes "discovered"
      else codes "unavailable"

  abbrev pub expected_state : Text
  expected_state = if any incomplete cs then tier_state ++ codes "+partial" else tier_state

-- The flags that the copies raise.
record Raised (cs : List JoinedCopy) (fl end : Flags) : Type 0 where
  spools : end.on_spool ≡ (fl.on_spool || any (at spool) cs)
  archives : end.on_nas ≡ (fl.on_nas || any (at nas) cs)
  sources : end.on_source ≡ (fl.on_source || any (at source) cs)
  flights : end.partial ≡ (fl.partial || any incomplete cs)

flagged_tiers :
    (k : LocationKind) (fl : Flags)
    → ((flagged k fl).on_spool ≡ (fl.on_spool || k == spool))
      × ((flagged k fl).on_nas ≡ (fl.on_nas || k == nas))
      × ((flagged k fl).on_source ≡ (fl.on_source || k == source))
      × ((flagged k fl).partial ≡ fl.partial)
unfolding location_kind_eq
flagged_tiers spool fl = (ground arith, ground arith, ground arith, refl)
flagged_tiers nas fl = (ground arith, ground arith, ground arith, refl)
flagged_tiers source fl = (ground arith, ground arith, ground arith, refl)

flags_of-Raised :
    (cs : List JoinedCopy) (fl : Flags) (names : List Text) → Raised cs fl (flags_of cs fl names).0
unfolding flags_of
flags_of-Raised [] fl names = record {
  spools = ground arith;
  archives = ground arith;
  sources = ground arith;
  flights = ground arith;
}
flags_of-Raised (c ∷ cs) fl names = elim (Bool-cases (complete_copy c)) [
  | inl b ↦
      let h = flags_of-Raised cs (flagged c.location.kind fl) (names ++ (c.location.name ∷ [])) in
      let (m, n, o, p) = flagged_tiers c.location.kind fl in
      record {
        spools = ground (arith, b, h.spools, m);
        archives = ground (arith, b, h.archives, n);
        sources = ground (arith, b, h.sources, o);
        flights = ground (arith, b, h.flights, p, incomplete-not_complete c);
      }
  | inr b ↦
      let h = flags_of-Raised cs (record fl { partial = true }) names in
      record {
        spools = ground (arith, b, h.spools);
        archives = ground (arith, b, h.archives);
        sources = ground (arith, b, h.sources);
        flights = ground (arith, b, h.flights, incomplete-not_complete c);
      }
]

append_nil : {A : Type 0} (xs : List A) → xs ++ [] ≡ xs
append_nil [] = refl
append_nil (x ∷ xs) = ap (◌∷◌ x) (append_nil xs)

append_assoc : {A : Type 0} (xs ys zs : List A) → (xs ++ ys) ++ zs ≡ xs ++ (ys ++ zs)
append_assoc [] ys zs = refl
append_assoc (x ∷ xs) ys zs = ap (◌∷◌ x) (append_assoc xs ys zs)

names_of_flags :
    (cs : List JoinedCopy) (fl : Flags) (names : List Text)
    → (flags_of cs fl names).1
      ≡ names ++ map (λ (c : JoinedCopy). c.location.name) (keep complete_copy cs)
unfolding flags_of
names_of_flags [] fl names = sym (append_nil names)
names_of_flags (c ∷ cs) fl names = elim (Bool-cases (complete_copy c)) [
  | inl b ↦ rw b (
      names_of_flags cs (flagged c.location.kind fl) (names ++ (c.location.name ∷ []))
      ∙ append_assoc names (c.location.name ∷ []) _)
  | inr b ↦ rw b (names_of_flags cs (record fl { partial = true }) names)
]

same_choice :
    (n d : Bool) (x y z : Text)
    → (if n && d then x else if n then y else z) ≡ (if n then (if d then x else y) else z)
same_choice true true x y z = refl
same_choice true false x y z = refl
same_choice false d x y z = refl

-- The state that a listing gives an asset is, whatever the order of its copies, the one of the
-- tiers with a complete copy: archived on a NAS and a spool, flushed on a NAS alone, spooled on
-- a spool, discovered on a source, and else unavailable, marked when some copy is partial or has
-- been found to differ. The locations listed are those of the complete copies.
pub asset_status-expected_state :
    (a : Asset) (cs : List JoinedCopy)
    → ((asset_status a cs).state ≡ expected_state cs)
      × ((asset_status a cs).copies
          ≡ map (λ (c : JoinedCopy). c.location.name) (keep complete_copy cs))
unfolding asset_status label
asset_status-expected_state a cs =
    let h = flags_of-Raised cs no_flags [] in
    (
      rw h.spools (
          rw h.archives (
            rw h.sources (
              rw h.flights (
                ap (λ t. if any incomplete cs then t ++ codes "+partial" else t)
                  (same_choice (any (at nas) cs) (any (at spool) cs) _ _ _))))),
      names_of_flags cs no_flags [],
    )
