-- ===== src/Ingest/Tiers/Rows.antt =====
-- How the statements on the copies of catalog/catalog.go change what the locations hold.
use mediamanager.Base.{
  ℕ, ◌≡◌, ap, ◌∙◌, subst, inl, inr, true, false, some, List, arith, nat_eq_iff, Bool-cases,
  Option-cases, In, In-keep, keep-In, Text, text_eq_iff, ℕ_eq, Text_eq, Pair_eq, ◌==◌, ok,
}
use mediamanager.Base.Sorting.{In-sort, sort-In}
use mediamanager.Table.{find, put, remove, Distinct, find-put, find-remove, find-In, In-find}
use mediamanager.Table.Keys.{put-Distinct, remove-Distinct}
use mediamanager.Catalog.{
  LocationKind_eq, Location, complete, copy_state_eq_iff, CopyState_eq, Copy, JoinedCopy, Role_eq,
  Db, location_id_key, copy_key,
}
use mediamanager.Catalog.Copies.{references, put_copy, copy_at, delete_copy, nearer, copies}
use mediamanager.Catalog.Copies.Joined.{In-joined, joined-In}
use mediamanager.Ingest.Tiers.{Holding, with_copy, held}

-- The tables of locations and of copies: the locations are the given ones, the copies have a key, and
-- hold what is said.
pub record Stands (ls0 : List Location) (h : Holding) (cs : List Copy) (ls : List Location)
    : Type 0 where
  pub same_locations : ls ≡ ls0
  pub keys : Distinct copy_key cs
  pub holds : (a : Text) (l : ℕ) → held cs a l ≡ h a l

held-put :
    (c : Copy) (cs : List Copy) (h : Holding)
    → ((a : Text) (l : ℕ) → held cs a l ≡ h a l)
    → (a : Text) (l : ℕ)
    → held (put copy_key c cs) a l ≡ with_copy h c.asset_id c.location_id (c.state == complete) a l
unfolding held with_copy
held-put c cs h q a l = ground (
  arith,
  q a l,
  find-put copy_key (a, l) c cs,
  text_eq_iff c.asset_id a,
  text_eq_iff a c.asset_id,
  nat_eq_iff c.location_id l,
  nat_eq_iff l c.location_id,
)

held-remove :
    (id : Text) (on : ℕ) (cs : List Copy) (h : Holding)
    → ((a : Text) (l : ℕ) → held cs a l ≡ h a l)
    → (a : Text) (l : ℕ) → held (remove copy_key (id, on) cs) a l ≡ with_copy h id on false a l
unfolding held with_copy
held-remove id on cs h q a l = ground (
  arith,
  q a l,
  find-remove copy_key (id, on) (a, l) cs,
  text_eq_iff id a,
  text_eq_iff a id,
  nat_eq_iff on l,
  nat_eq_iff l on,
)

module _ (ls0 : List Location) (h : Holding) where
  pub put_copy-Stands :
      (c : Copy) (db db' : Db)
      → put_copy db c ≡ ok db'
      → Stands ls0 h db.copies db.locations
      → Stands ls0
          (with_copy h c.asset_id c.location_id (c.state == complete))
          db'.copies
          db'.locations
  unfolding put_copy
  put_copy-Stands c db db' q s = elim (Bool-cases (references db c.asset_id c.location_id)) [
    | inr b ↦ absurd (ground (arith, b))
    | inl b ↦
        let same : record db { copies = put copy_key c db.copies } ≡ db' = ground (arith, b) in
        subst
          (λ (d : Db).
            Stands ls0 (with_copy h c.asset_id c.location_id (c.state == complete)) d.copies
              d.locations)
          same
          (record {
            same_locations = s.same_locations;
            keys = put-Distinct copy_key c db.copies s.keys;
            holds = held-put c db.copies h s.holds;
          })
  ]

  pub delete_copy-Stands :
      (id : Text) (on : ℕ) (db db' : Db)
      → delete_copy db id on ≡ ok db'
      → Stands ls0 h db.copies db.locations
      → Stands ls0 (with_copy h id on false) db'.copies db'.locations
  unfolding delete_copy
  delete_copy-Stands id on db db' q s = elim (Option-cases (copy_at db id on)) [
    | inl n ↦ absurd (ground (arith, n))
    | inr (c, n) ↦
        let same : record db { copies = remove copy_key (id, on) db.copies } ≡ db' =
          ground (arith, n) in
        subst (λ (d : Db). Stands ls0 (with_copy h id on false) d.copies d.locations) same
          (record {
            same_locations = s.same_locations;
            keys = remove-Distinct copy_key (id, on) db.copies s.keys;
            holds = held-remove id on db.copies h s.holds;
          })
  ]

-- What is listed as a complete copy is held.
pub copies-held :
    (db : Db) (id : Text) (c : JoinedCopy)
    → Distinct copy_key db.copies
    → In c (copies db id)
    → c.copy.state ≡ complete
    → held db.copies id c.copy.location_id ≡ true
unfolding copies held
copies-held db id c d m q =
    let k = In-joined db c _ (In-sort nearer c _ m) in
    let (i, e) = In-keep (λ (x : Copy). x.asset_id == id) c.copy db.copies k.0 in
    let f = In-find copy_key c.copy db.copies d i in
    ground
      (arith, f, q, e, text_eq_iff c.copy.asset_id id, (copy_state_eq_iff c.copy.state complete).1)

-- What is held at a location is listed as a complete copy there.
pub held-copies :
    (db : Db) (id : Text) (l : ℕ) (location : Location)
    → find location_id_key l db.locations ≡ some location
    → held db.copies id l ≡ true
    → (c : Copy) × (c.state ≡ complete)
      × (c.location_id ≡ l)
      × In (record { copy = c; location = location }) (copies db id)
unfolding copies held
held-copies db id l location q h = elim (Option-cases (find copy_key (id, l) db.copies)) [
  | inl n ↦ absurd (ground (arith, n))
  | inr (c, n) ↦
      let (m, e) = find-In copy_key (id, l) c db.copies n in
      let of_asset : c.asset_id ≡ id = ap (λ k. k.0) e in
      let on_it : c.location_id ≡ l = ap (λ k. k.1) e in
      (
        c,
        ground (arith, n, (copy_state_eq_iff c.state complete).0),
        on_it,
        sort-In nearer (record { copy = c; location = location }) _
            (joined-In db c location _
              (keep-In (λ (x : Copy). x.asset_id == id) c db.copies m
                (ground (arith, of_asset, text_eq_iff c.asset_id id)))
              (ap (λ k. find location_id_key k db.locations) on_it ∙ q)),
      )
]
