-- ===== src/Ingest/Source/Registered.antt =====
-- What register of ingest/source.go leaves in the catalog.

use mediamanager.Catalog.Assets.{asset}
use mediamanager.Catalog.Assets.Recorded.{asset-id}
use mediamanager.Ingest.Kept.{ask-Ensures, query-rule, statement-rule}
use mediamanager.Ingest.Store.{Store}
use mediamanager.Base.Exec.Keeps.{
  Ensures, Ensures-bind, Ensures-weaken, Ensures-fact, Ensures-from, Ensures-nothing, Post-ok,
}
use mediamanager.Base.{
  ◌≡◌, refl, sym, ap, ◌∙◌, subst, Bool, false, Option, none, some, arith, nat_eq_iff, Bool-cases,
  Text, text_eq_iff, ℕ_eq, Text_eq, Pair_eq, ok,
}
use mediamanager.Ingest.Source.{identify, find_or_place, source_row, copy_on, registered, register}
use mediamanager.Identity
use mediamanager.Clock.{Time, equal}
use mediamanager.Table.{find-put}
use mediamanager.Scan.{File}
use mediamanager.Catalog.{
  LocationKind_eq, Location, Asset, complete, CopyState_eq, Role_eq, Db, copy_key, source_file_key,
}
use mediamanager.Catalog.Copies.{references, put_copy, copy_at}
use mediamanager.Catalog.Sources.{put_source_file, lookup_source_file}

module _ (sha256 : Identity.Bytes → Identity.Bytes) (capture_time : File → Time) (loc : Location)
    (f : File) where
  abbrev pub Cached : Asset → Db → Type 0
  Cached a db = lookup_source_file db loc.id f.rel f.size f.mod_time ≡ some a.id

  -- The asset has a complete copy on the source, and the cache knows the file.
  pub record IsRegistered (a : Asset) (db : Db) : Type 0 where
    pub on_source :
        copy_at db a.id loc.id ≡ some (copy_on sha256 capture_time a.id loc.id f.rel complete)
    pub cached : Cached a db

  abbrev OnSource : Asset → Db → Type 0
  OnSource a db =
      copy_at db a.id loc.id ≡ some (copy_on sha256 capture_time a.id loc.id f.rel complete)

  put_copy-OnSource :
      (a : Asset) (db db' : Db)
      → put_copy db (copy_on sha256 capture_time a.id loc.id f.rel complete) ≡ ok db'
      → OnSource a db'
  unfolding put_copy copy_at
  put_copy-OnSource a db db' q = ground (
    arith,
    q,
    Bool-cases (references db a.id loc.id),
    text_eq_iff a.id a.id,
    nat_eq_iff loc.id loc.id,
    find-put copy_key (a.id, loc.id) (copy_on sha256 capture_time a.id loc.id f.rel complete)
        db.copies,
  )

  put_copy-Cached :
      (a : Asset) (db db' : Db)
      → put_copy db (copy_on sha256 capture_time a.id loc.id f.rel complete) ≡ ok db'
      → Cached a db
      → Cached a db'
  unfolding put_copy lookup_source_file
  put_copy-Cached a db db' q h = ground (arith, q, h, Bool-cases (references db a.id loc.id))

  put_source_file-both :
      (a : Asset) (db db' : Db)
      → put_source_file db (source_row sha256 capture_time loc f a) ≡ ok db'
      → OnSource a db
      → IsRegistered a db'
  unfolding put_source_file lookup_source_file copy_at equal
  put_source_file-both a db db' q h = record {
    on_source = ground (arith, q, h, Bool-cases (references db a.id loc.id));
    cached = ground (
      arith,
      q,
      Bool-cases (references db a.id loc.id),
      text_eq_iff f.rel f.rel,
      nat_eq_iff loc.id loc.id,
      nat_eq_iff f.size f.size,
      nat_eq_iff f.mod_time.instant f.mod_time.instant,
      find-put source_file_key (loc.id, f.rel) (source_row sha256 capture_time loc f a)
          db.source_files,
    );
  }

  -- Where the cache knows the file.
  hit_ok :
      (id : Text)
      → Ensures
          (λ s. lookup_source_file s.db loc.id f.rel f.size f.mod_time ≡ some id)
          (registered sha256 capture_time loc f (some id))
          (λ r s. IsRegistered r.0 s.db × (r.1 ≡ false) × (r.0.id ≡ id))
          (λ e s. Unit {0})
  hit_ok id =
      Ensures-bind _ _
        (Ensures-weaken _
          (λ a s k. (k.0 ∙ ap some (sym (asset-id s.db id a k.1)), asset-id s.db id a k.1))
          (λ e s k. tt)
          (query-rule (λ db. lookup_source_file db loc.id f.rel f.size f.mod_time ≡ some id)
            (λ db. asset db id)))
        λ a. Ensures-fact λ same.
          Ensures-bind _ _
            (Ensures-weaken _ (λ u s k. k) (λ e s k. tt)
              (statement-rule (Cached a) (IsRegistered a) _ (λ db db' q h. record {
                on_source = put_copy-OnSource a db db' q;
                cached = put_copy-Cached a db db' q h;
              })))
            λ u. record { at = λ s k. (k, refl, same) }

  -- Where it does not.
  miss_ok :
      Ensures
        (λ s. Unit {0})
        (registered sha256 capture_time loc f none)
        (λ r s. IsRegistered r.0 s.db)
        (λ e s. Unit {0})
  miss_ok = Ensures-bind _ _ (Ensures-nothing (identify sha256 capture_time f)) λ a.
      Ensures-bind _ _ (Ensures-nothing (find_or_place sha256 capture_time f a)) λ r.
        Ensures-bind _ _
          (Ensures-weaken _ (λ u s k. k) (λ e s k. tt)
            (statement-rule (λ db. Unit {0}) (OnSource r.0) _
              (λ db db' q h. put_copy-OnSource r.0 db db' q)))
          λ u.
            Ensures-bind _ _
              (Ensures-weaken _ (λ v s k. k) (λ e s k. tt)
                (statement-rule (OnSource r.0) (IsRegistered r.0) _
                  (λ db db' q h. put_source_file-both r.0 db db' q h)))
              λ v. record { at = λ s k. k }

  registered_ok :
      (hit : Option Text)
      → Ensures
          (λ s. hit ≡ lookup_source_file s.db loc.id f.rel f.size f.mod_time)
          (registered sha256 capture_time loc f hit)
          (λ r s. IsRegistered r.0 s.db)
          (λ e s. Unit {0})
  registered_ok none = Ensures-from (λ s k. tt) miss_ok
  registered_ok (some id) =
      Ensures-from (λ s k. sym k) (Ensures-weaken _ (λ r s k. k.0) (λ e s k. tt) (hit_ok id))

  register_ok :
      Ensures
        (λ s. Unit {0})
        (register sha256 capture_time loc f)
        (λ r s. IsRegistered r.0 s.db)
        (λ e s. Unit {0})
  unfolding register
  register_ok = record {
    at = λ s h.
        (Ensures-bind _ _
            (Ensures-weaken _
              (λ hit t k.
                k.1
                ∙ ap (λ (d : Db). lookup_source_file d loc.id f.rel f.size f.mod_time) (sym k.0))
              (λ e t k. tt)
              (ask-Ensures s.db (λ db. lookup_source_file db loc.id f.rel f.size f.mod_time)))
            registered_ok).at
          s refl;
  }

  -- A file that register returns from has a complete copy of the asset on the source, and the
  -- cache knows it at its size and time.
  pub register-IsRegistered :
      (s : Store) (a : Asset) (is_new : Bool)
      → (register sha256 capture_time loc f s).0 ≡ ok (a, is_new)
      → IsRegistered a (register sha256 capture_time loc f s).1.db
  register-IsRegistered s a is_new q =
      Post-ok (λ r t. IsRegistered r.0 t.db) _ _ (a, is_new) (register_ok.at s tt) q

  again_ok :
      (a : Asset)
      → Ensures
          (λ s. Cached a s.db)
          (register sha256 capture_time loc f)
          (λ r s. (r.1 ≡ false) × (r.0.id ≡ a.id))
          (λ e s. Unit {0})
  unfolding register
  again_ok a = record {
    at = λ s h.
        (Ensures-bind _ _
            (Ensures-weaken _ (λ hit t k. (cached_still s t k.0 h, k.1 ∙ h)) (λ e t k. tt)
              (ask-Ensures s.db (λ db. lookup_source_file db loc.id f.rel f.size f.mod_time)))
            (λ hit. Ensures-fact λ e.
              subst
                (λ o.
                  Ensures (λ s. Cached a s.db) (registered sha256 capture_time loc f o)
                    (λ r s. (r.1 ≡ false) × (r.0.id ≡ a.id)) (λ e s. Unit {0}))
                (sym e) (Ensures-weaken _ (λ r s k. (k.1, k.2)) (λ e s k. tt) (hit_ok a.id)))).at
          s refl;
  }
    where
      cached_still : (s t : Store) → t.db ≡ s.db → Cached a s.db → Cached a t.db
      cached_still s t e h = subst (Cached a) (sym e) h

  -- Registering a file once more returns the same asset and never as new, where the catalog is
  -- as the first time left it.
  pub register-again :
      (s t : Store) (a b : Asset) (is_new is_new' : Bool)
      → (register sha256 capture_time loc f s).0 ≡ ok (a, is_new)
      → t.db ≡ (register sha256 capture_time loc f s).1.db
      → (register sha256 capture_time loc f t).0 ≡ ok (b, is_new')
      → (is_new' ≡ false) × (b.id ≡ a.id)
  register-again s t a b is_new is_new' q e p =
      let r = register-IsRegistered s a is_new q in
      Post-ok (λ r t. (r.1 ≡ false) × (r.0.id ≡ a.id)) _ _ (b, is_new')
        ((again_ok a).at t (subst (Cached a) (sym e) r.cached)) p
