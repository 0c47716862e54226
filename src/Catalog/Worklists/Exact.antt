-- ===== src/Catalog/Worklists/Exact.antt =====
-- The two worklists of catalog/catalog.go hold exactly the assets that their comments promise.
use mediamanager.Base.Sorting.{In-sort, sort-In}
use mediamanager.Catalog.Invariant.{IsWellFormed}
use mathlib.Core.Bool.{false≢true}
use mediamanager.Base.{
  ℕ, ◌≡◌, sym, ◌∙◌, ◌↔◌, inl, inr, true, false, some, arith, Bool-cases, keep, In, In-keep, keep-In,
  any-In, In-any, Text, text_eq_iff, ◌==◌, ℕ_eq, Text_eq, Pair_eq,
}
use mediamanager.Media.{Kind_eq}
use mediamanager.Table.{find, Distinct, find-In, In-find}
use mediamanager.Catalog.{
  nas, location_kind_eq_iff, LocationKind_eq, Location, Asset, complete, copy_state_eq_iff,
  CopyState_eq, Copy, Role_eq, Db, location_id_key,
}
use mediamanager.Catalog.Copies.{joined}
use mediamanager.Catalog.Copies.Joined.{In-joined, joined-In}
use mediamanager.Catalog.Worklists.{
  has_complete, has_complete_at, has_complete_on_nas, captured_before, needs_archive, flushable,
}

-- Some copy of the asset is complete.
pub record CompleteCopy (db : Db) (id : Text) : Type 0 where
  pub copy : Copy
  pub there : In copy db.copies
  pub of_asset : copy.asset_id ≡ id
  pub is_complete : copy.state ≡ complete

-- Some complete copy of the asset is on a location of kind nas.
pub record CompleteOnNas (db : Db) (id : Text) : Type 0 where
  pub found : CompleteCopy db id
  pub location : Location
  pub listed : In location db.locations
  pub holds_it : found.copy.location_id ≡ location.id
  pub is_nas : location.kind ≡ nas

has_complete_sound : (db : Db) (id : Text) → has_complete db id ≡ true → CompleteCopy db id
unfolding has_complete
has_complete_sound db id h =
    let (c, m, t) = any-In _ db.copies h in
    record {
      copy = c;
      there = m;
      of_asset = ground (arith, text_eq_iff c.asset_id id);
      is_complete = ground (arith, copy_state_eq_iff c.state complete);
    }

has_complete_complete : (db : Db) (id : Text) → CompleteCopy db id → has_complete db id ≡ true
unfolding has_complete
has_complete_complete db id c =
    In-any _ c.copy db.copies c.there
      (ground (arith, text_eq_iff c.copy.asset_id id, copy_state_eq_iff c.copy.state complete))

has_complete_on_nas_sound :
    (db : Db) (id : Text) → has_complete_on_nas db id ≡ true → CompleteOnNas db id
unfolding has_complete_on_nas
has_complete_on_nas_sound db id h =
    let (j, m, t) = any-In _ (joined db (keep (λ c. c.asset_id == id) db.copies)) h in
    let (kept, at) = In-joined db j _ m in
    let (there, mine) = In-keep _ j.copy db.copies kept in
    let (listed, keyed) = find-In location_id_key _ j.location db.locations at in
    record {
      found = record {
        copy = j.copy;
        there = there;
        of_asset = (text_eq_iff j.copy.asset_id id).0 mine;
        is_complete = ground (arith, copy_state_eq_iff j.copy.state complete);
      };
      location = j.location;
      listed = listed;
      holds_it = sym keyed;
      is_nas = ground (arith, location_kind_eq_iff j.location.kind nas);
    }

has_complete_on_nas_complete :
    (db : Db) (id : Text)
    → Distinct location_id_key db.locations
    → CompleteOnNas db id
    → has_complete_on_nas db id ≡ true
unfolding has_complete_on_nas
has_complete_on_nas_complete db id d n =
    let c = n.found.copy in
    let at : find location_id_key c.location_id db.locations ≡ some n.location =
      rw n.holds_it (In-find location_id_key n.location db.locations d n.listed) in
    let kept =
      keep-In (λ z. z.asset_id == id) c db.copies n.found.there
        ((text_eq_iff c.asset_id id).1 n.found.of_asset) in
    In-any _ (record { copy = c; location = n.location }) _ (joined-In db c n.location _ kept at)
      (ground (arith, copy_state_eq_iff c.state complete, location_kind_eq_iff n.location.kind nas))

-- Some complete copy of the asset is on the given location.
abbrev pub CompleteAt : Db → Text → ℕ → Type 0
CompleteAt db id location_id = (c : CompleteCopy db id) × (c.copy.location_id ≡ location_id)

has_complete_at_sound :
    (db : Db) (id : Text) (l : ℕ) → has_complete_at db id l ≡ true → CompleteAt db id l
unfolding has_complete_at
has_complete_at_sound db id l h =
    let (c, m, t) = any-In _ db.copies h in
    (
      record {
        copy = c;
        there = m;
        of_asset = ground (arith, text_eq_iff c.asset_id id);
        is_complete = ground (arith, copy_state_eq_iff c.state complete);
      },
      ground arith,
    )

has_complete_at_complete :
    (db : Db) (id : Text) (l : ℕ) → CompleteAt db id l → has_complete_at db id l ≡ true
unfolding has_complete_at
has_complete_at_complete db id l (c, at) =
    In-any _ c.copy db.copies c.there
      (ground (arith, text_eq_iff c.copy.asset_id id, copy_state_eq_iff c.copy.state complete))

module _ (db : Db) (a : Asset) (w : IsWellFormed db) where
  no_nas_false : (¬ CompleteOnNas db a.id) → has_complete_on_nas db a.id ≡ false
  no_nas_false lacking = elim (Bool-cases (has_complete_on_nas db a.id)) [
    | inl t ↦ absurd (lacking (has_complete_on_nas_sound db a.id t))
    | inr f ↦ f
  ]

  -- In a well-formed database NeedsArchive lists exactly the assets with a complete copy
  -- somewhere but none on any NAS.
  pub needs_archive_iff :
      In a (needs_archive db) ↔ (In a db.assets × CompleteCopy db a.id × (¬ CompleteOnNas db a.id))
  unfolding needs_archive
  needs_archive_iff = (
    λ m.
        let (there, t) = In-keep _ a db.assets (In-sort captured_before a _ m) in
        let off : has_complete_on_nas db a.id ≡ false = ground arith in
        (
          there,
          has_complete_sound db a.id (ground arith),
          λ n. false≢true (sym off ∙ has_complete_on_nas_complete db a.id w.location_ids n),
        ),
    λ (there, c, no_nas). sort-In captured_before a _ (
        keep-In _ a db.assets there
          (ground (arith, has_complete_complete db a.id c, no_nas_false no_nas))),
  )

  -- In a well-formed database Flushable lists exactly the unpinned assets with a complete copy
  -- on the spool and a complete copy on some NAS.
  pub flushable_iff :
      (spool_id : ℕ)
      → In a (flushable db spool_id) ↔ (
          In a db.assets × (a.pinned ≡ false) × CompleteAt db a.id spool_id × CompleteOnNas db a.id)
  unfolding flushable
  flushable_iff spool_id = (
    λ m.
        let (there, t) = In-keep _ a db.assets (In-sort captured_before a _ m) in
        (
          there,
          ground arith,
          has_complete_at_sound db a.id spool_id (ground arith),
          has_complete_on_nas_sound db a.id (ground arith),
        ),
    λ (there, loose, at, n). sort-In captured_before a _ (
        keep-In _ a db.assets there (
          ground (
            arith,
            has_complete_at_complete db a.id spool_id at,
            has_complete_on_nas_complete db a.id w.location_ids n,
          ))),
  )
