-- ===== src/Ingest/Tiers.antt =====
-- What package ingest promises of the tiers, without the catalog's tables: which location holds a
-- complete copy of which asset, and the moves that may change that. The children show that the steps
-- of ingest/steps.go make such moves only, wherever they stop.
pub mod Rows
pub mod Copying
pub mod Spooling
pub mod Refine
pub mod Spools
pub mod Flushes
pub mod Runs
mod Tests
use mediamanager.Base.{
  ℕ, ◌≡◌, ◌≢◌, inl, inr, Bool, true, false, ◌&&◌, none, some, List, arith, if◌then◌else◌,
  nat_eq_iff, Bool-cases, Text, text_eq_iff, ℕ_eq, Text_eq, Pair_eq, ◌==◌,
}
use mediamanager.Table.{find}
use mediamanager.Catalog.{
  nas, LocationKind_eq, Location, complete, CopyState_eq, Copy, Role_eq, location_id_key, copy_key,
}

-- Whether a location holds a complete copy of an asset.
abbrev pub Holding : Type 0
Holding = Text → ℕ → Bool

-- With the answer changed for one asset at one location.
unfoldable pub with_copy : Holding → Text → ℕ → Bool → Holding
with_copy h id l b a k = if a == id && k == l then b else h a k

-- A copy is made where another one is, or a copy is dropped while another one is on a NAS.
pub data Moves (OnNas : ℕ → Type 0) : Holding → Holding → Type 0 where
  none_left : (h : Holding) → Moves OnNas h h
  copied :
      (h h' : Holding) (id : Text) (from to : ℕ)
      → h id from ≡ true
      → Moves OnNas (with_copy h id to true) h'
      → Moves OnNas h h'
  dropped :
      (h h' : Holding) (id : Text) (on kept : ℕ)
      → kept ≢ on
      → OnNas kept
      → h id kept ≡ true
      → Moves OnNas (with_copy h id on false) h'
      → Moves OnNas h h'

module _ {OnNas : ℕ → Type 0} where
  pub Moves-trans : (h h' h'' : Holding) → Moves OnNas h h' → Moves OnNas h' h'' → Moves OnNas h h''
  Moves-trans h h' h'' (none_left _) n = n
  Moves-trans h h' h'' (copied _ _ id from to q m) n =
      copied h h'' id from to q (Moves-trans (with_copy h id to true) h' h'' m n)
  Moves-trans h h' h'' (dropped _ _ id on kept e i q m) n =
      dropped h h'' id on kept e i q (Moves-trans (with_copy h id on false) h' h'' m n)

  -- What the catalog's table of copies tells.
  -- No moves lose an asset: what some location holds, some location holds after them.
  pub Moves-never_lost :
      (h h' : Holding) (id : Text) (l : ℕ)
      → Moves OnNas h h'
      → h id l ≡ true
      → (k : ℕ) × (h' id k ≡ true)
  unfolding with_copy
  Moves-never_lost h h' id l (none_left _) q = (l, q)
  Moves-never_lost h h' id l (copied _ _ id2 from to f m) q =
      Moves-never_lost (with_copy h id2 to true) h' id l m
        (ground (arith, q, Bool-cases (id == id2 && l == to)))
  Moves-never_lost h h' id l (dropped _ _ id2 on kept e i f m) q =
      elim (Bool-cases (id == id2 && l == on)) [
        | inr b ↦ Moves-never_lost (with_copy h id2 on false) h' id l m (ground (arith, q, b))
        | inl b ↦
            Moves-never_lost (with_copy h id2 on false) h' id kept m
              (ground (arith, f, b, text_eq_iff id id2, nat_eq_iff kept on))
      ]

-- Copies are dropped at given places only, each while another one is on a NAS.
pub data Drops (OnNas OnSpool : ℕ → Type 0) : Holding → Holding → Type 0 where
  none_dropped : (h : Holding) → Drops OnNas OnSpool h h
  one_dropped :
      (h h' : Holding) (id : Text) (on kept : ℕ)
      → OnSpool on
      → kept ≢ on
      → OnNas kept
      → h id kept ≡ true
      → Drops OnNas OnSpool (with_copy h id on false) h'
      → Drops OnNas OnSpool h h'

module _ {OnNas OnSpool : ℕ → Type 0} where
  pub Drops-trans :
      (h h' h'' : Holding)
      → Drops OnNas OnSpool h h'
      → Drops OnNas OnSpool h' h''
      → Drops OnNas OnSpool h h''
  Drops-trans h h' h'' (none_dropped _) n = n
  Drops-trans h h' h'' (one_dropped _ _ id on kept o e i q m) n =
      one_dropped h h'' id on kept o e i q (Drops-trans (with_copy h id on false) h' h'' m n)

  -- Drops are moves.
  pub Drops-Moves : (h h' : Holding) → Drops OnNas OnSpool h h' → Moves OnNas h h'
  Drops-Moves h h' (none_dropped _) = none_left h
  Drops-Moves h h' (one_dropped _ _ id on kept o e i q m) =
      dropped h h' id on kept e i q (Drops-Moves (with_copy h id on false) h' m)

-- The holding that a table of copies records.
unfoldable pub held : List Copy → Holding
held cs id l = elim (find copy_key (id, l) cs) [ none ↦ false | some c ↦ c.state == complete ]

-- A location is a NAS in the table of locations.
pub record IsNasIn (ls : List Location) (id : ℕ) : Type 0 where
  pub location : Location
  pub listed : find location_id_key id ls ≡ some location
  pub is_nas : location.kind ≡ nas
