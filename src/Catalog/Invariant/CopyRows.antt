-- ===== src/Catalog/Invariant/CopyRows.antt =====
-- The statements of catalog/catalog.go on the copies table keep the constraints.
use mediamanager.Base.{
  ℕ, ◌≡◌, refl, subst, inl, inr, true, List, arith, if◌then◌else◌, Bool-cases, Option-cases, Text,
  ◌==◌, ℕ_eq, Text_eq, Pair_eq, ok,
}
use mediamanager.Media.{Kind_eq}
use mediamanager.Clock.{Time, zero_time}
use mediamanager.Table.{put, change, remove, Distinct}
use mediamanager.Table.Keys.{
  put-Distinct, remove-Distinct, change-Distinct, All-put, All-remove, All-change,
}
use mediamanager.Catalog.{
  LocationKind_eq, CopyState, complete, CopyState_eq, Copy, Role_eq, Db, copy_key,
}
use mediamanager.Catalog.Copies.{references, put_copy, copy_at, set_copy_state, delete_copy}
use mediamanager.Catalog.Invariant.{CopiesRefer, IsWellFormed, CopiesRefer-mono}

module _ (db : Db) (w : IsWellFormed db) where
  -- The tables with other rows of copies, each of which names what is there.
  with_copies :
      (cs : List Copy)
      → Distinct copy_key cs
      → CopiesRefer db cs
      → IsWellFormed (record db { copies = cs })
  unfolding references
  with_copies cs keys refer = record {
    location_ids = w.location_ids;
    location_names = w.location_names;
    asset_ids = w.asset_ids;
    asset_paths = w.asset_paths;
    copy_keys = keys;
    copies_refer = CopiesRefer-mono db (record db { copies = cs }) (λ a l r. r) cs refer;
  }

-- PutCopy keeps the tables well formed.
pub put_copy-IsWellFormed :
    (db : Db) (c : Copy) {db' : Db} → IsWellFormed db → put_copy db c ≡ ok db' → IsWellFormed db'
unfolding put_copy
put_copy-IsWellFormed db c {db'} w h = elim (Bool-cases (references db c.asset_id c.location_id)) [
  | inr q ↦ absurd (ground arith)
  | inl q ↦
      let made : record db { copies = put copy_key c db.copies } ≡ db' = ground arith in
      subst IsWellFormed made (
        with_copies db w (put copy_key c db.copies) (put-Distinct copy_key c db.copies w.copy_keys)
          (All-put copy_key (λ z. references db z.asset_id z.location_id ≡ true) c db.copies q
            w.copies_refer))
]

-- SetCopyState keeps the tables well formed.
pub set_copy_state-IsWellFormed :
    (db : Db) (id : Text) (l : ℕ) (st : CopyState) (now : Time) {db' : Db}
    → IsWellFormed db
    → set_copy_state db id l st now ≡ ok db'
    → IsWellFormed db'
unfolding set_copy_state
set_copy_state-IsWellFormed db id l st now {db'} w h = elim (Option-cases (copy_at db id l)) [
  | inl q ↦ absurd (ground arith)
  | inr (c, q) ↦
      let stamp = if st == complete then now else zero_time in
      let f = λ (c : Copy). record c { state = st; verified_at = stamp } in
      let made : record db { copies = change copy_key (id, l) f db.copies } ≡ db' = ground arith in
      subst IsWellFormed made (
        with_copies db w (change copy_key (id, l) f db.copies)
          (change-Distinct copy_key f (λ x. refl) (id, l) db.copies w.copy_keys)
          (All-change copy_key (λ z. references db z.asset_id z.location_id ≡ true) (id, l) f
            db.copies (λ x r. r) w.copies_refer))
]

-- DeleteCopy keeps the tables well formed.
pub delete_copy-IsWellFormed :
    (db : Db) (id : Text) (l : ℕ) {db' : Db}
    → IsWellFormed db
    → delete_copy db id l ≡ ok db'
    → IsWellFormed db'
unfolding delete_copy
delete_copy-IsWellFormed db id l {db'} w h = elim (Option-cases (copy_at db id l)) [
  | inl q ↦ absurd (ground arith)
  | inr (c, q) ↦
      let made : record db { copies = remove copy_key (id, l) db.copies } ≡ db' = ground arith in
      subst IsWellFormed made (
        with_copies db w (remove copy_key (id, l) db.copies)
          (remove-Distinct copy_key (id, l) db.copies w.copy_keys)
          (All-remove copy_key (λ z. references db z.asset_id z.location_id ≡ true) (id, l)
            db.copies w.copies_refer))
]
