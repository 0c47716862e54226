-- ===== src/Ingest/Kept.antt =====
-- Which steps of package ingest leave the copies and the locations of the catalog alone: all that deals
-- with companions and with links.

pub mod Steps
pub mod Links
use mediamanager.Base.Exec.{◌>>=◌}
use mediamanager.Base.{
  ℕ, ◌≡◌, refl, sym, ap, ◌∙◌, subst, ◌⊎◌, inl, inr, Bool, true, false, List, [], ◌∷◌, arith,
  Bool-cases, Option-cases, Text, ℕ_eq, Text_eq, Pair_eq, Result, err, ok,
}
use mediamanager.Base.Exec.Keeps.{
  Keeps, Post, Ensures, Keeps-pure, Keeps-fail, Keeps-bind, Ensures-bind, Ensures-weaken,
  keeps_rules,
}
use mediamanager.Ingest.Store.{
  Store, Failure, statement_failed, catalog_error, Step, asked, ask, wrapped, query, committed,
  change_with, filed, on_files, grown, on_tree, as_option, tried, with_unit, statement,
}
use mediamanager.Catalog
use mediamanager.Catalog.{
  LocationKind_eq, Location, CopyState_eq, Copy, Role, Role_eq, Companion, Db, asset_key,
  companion_key,
}
use mediamanager.Files
use mediamanager.Linktree
use mediamanager.Linktree.{TreeOs}
use mediamanager.Table.{find}
use mediamanager.Catalog.Companions.{put_companion, delete_companion, companions}
use mediamanager.Catalog.Copies.{references}
use mediamanager.Catalog.Assets.{update_asset, set_full_sha256}

-- A statement that leaves both tables as they are.
pub record Untouched (f : Db → Result Catalog.Error Db) : Type 0 where
  pub copies : (db db' : Db) → f db ≡ ok db' → db'.copies ≡ db.copies
  pub locations : (db db' : Db) → f db ≡ ok db' → db'.locations ≡ db.locations

pub put_companion-Untouched : (c : Companion) → Untouched (λ db. put_companion db c)
unfolding put_companion
put_companion-Untouched c = record {
  copies = λ db db' q. ground (arith, Bool-cases (references db c.asset_id c.location_id));
  locations = λ db db' q. ground (arith, Bool-cases (references db c.asset_id c.location_id));
}

pub delete_companion-Untouched :
    (a : Text) (l : ℕ) (r : Role) (ext : Text) → Untouched (λ db. delete_companion db a l r ext)
unfolding delete_companion
delete_companion-Untouched a l r ext = record {
  copies = λ db db' q.
      ground (arith, Option-cases (find companion_key (a, (l, (r, ext))) db.companions));
  locations = λ db db' q.
      ground (arith, Option-cases (find companion_key (a, (l, (r, ext))) db.companions));
}

pub set_full_sha256-Untouched : (id sum : Text) → Untouched (λ db. set_full_sha256 db id sum)
unfolding set_full_sha256 update_asset
set_full_sha256-Untouched id sum = record {
  copies = λ db db' q. ground (arith, Option-cases (find asset_key id db.assets));
  locations = λ db db' q. ground (arith, Option-cases (find asset_key id db.assets));
}

module _ (P : List Copy → List Location → Type 0) where
  abbrev pub On : Store → Type 0
  On s = P s.db.copies s.db.locations

  module _ {A : Type 0} where
    pub ask-Keeps : (f : Db → A) → Keeps On (ask f)
    unfolding ask
    ask-Keeps f = record { at = λ s h. at s.statement_faults s h }
      where
        at : (fs : List Bool) (s : Store) → On s → On (asked f fs s).1
        at [] s h = h
        at (true ∷ fs) s h = h
        at (false ∷ fs) s h = h

  module _ {A : Type 0} where
    pub query-Keeps : (f : Db → Result Catalog.Error A) → Keeps On (query f)
    unfolding query
    query-Keeps f = Keeps-bind _ _ (ask-Keeps f) λ r. back r
      where
        back : (r : Result Catalog.Error A) → Keeps On (wrapped r)
        back (ok a) = Keeps-pure a
        back (err e) = Keeps-fail (catalog_error e)

    pub on_files-Keeps : (m : Files.Os A) → Keeps On (on_files m)
    unfolding on_files
    on_files-Keeps m = record { at = λ s h. at (m s.world).0 (m s.world).1 s h }
      where
        at : (r : Result Files.Error A) (w : Files.World) (s : Store) → On s → On (filed (r, w) s).1
        at (ok a) w s h = h
        at (err e) w s h = h

    pub on_tree-Keeps : (root : Text) (m : TreeOs A) → Keeps On (on_tree root m)
    unfolding on_tree
    on_tree-Keeps root m = record { at = λ s h. at (m (s.trees root)) s h }
      where
        at :
            (r : Result Linktree.Failure A × Linktree.State) (s : Store)
            → On s
            → On (grown root r s).1
        at (ok a, t) s h = h
        at (err e, t) s h = h

    pub tried-Keeps : (m : Step A) → Keeps On m → Keeps On (tried m)
    tried-Keeps m k = record { at = λ s h. at (m s).0 (m s).1 (k.at s h) }
      where
        at : (r : Result Failure A) (t : Store) → On t → On (as_option (r, t)).1
        at (ok a) t h = h
        at (err e) t h = h

  pub statement-Keeps : (f : Db → Result Catalog.Error Db) → Untouched f → Keeps On (statement f)
  unfolding statement change_with ask
  statement-Keeps f u = record { at = λ s h. at s.statement_faults s h }
    where
      fin :
          (r : Result Catalog.Error Db) (s : Store)
          → f s.db ≡ r
          → On s
          → On (committed (with_unit r) s).1
      fin (ok d) s q h =
          subst (λ c. P c d.locations) (sym (u.copies s.db d q))
            (subst (λ l. P s.db.copies l) (sym (u.locations s.db d q)) h)
      fin (err e) s q h = h

      at :
          (fs : List Bool) (s : Store)
          → On s
          → On ((asked (λ db. with_unit (f db)) fs >>= committed) s).1
      at [] s h = fin (f s.db) s refl h
      at (true ∷ fs) s h = h
      at (false ∷ fs) s h = fin (f s.db) (record s { statement_faults = fs }) refl h

-- A statement takes what holds of the tables from `P` to `Q`, or fails and leaves it. The files stay.
pub statement-Ensures :
    (P Q : List Copy → List Location → Type 0) (K : Files.World → Type 0)
    (f : Db → Result Catalog.Error Db)
    → ((db db' : Db) → f db ≡ ok db' → P db.copies db.locations → Q db'.copies db'.locations)
    → Ensures
        (λ s. On P s × K s.world)
        (statement f)
        (λ u s. On Q s × K s.world)
        (λ e s. On P s × K s.world)
unfolding statement change_with ask
statement-Ensures P Q K f step = record { at = λ s h. at s.statement_faults s h }
  where
    Good : Unit {0} → Store → Type 0
    Good u s = On Q s × K s.world

    Bad : Failure → Store → Type 0
    Bad e s = On P s × K s.world

    fin :
        (r : Result Catalog.Error Db) (s : Store)
        → f s.db ≡ r
        → On P s × K s.world
        → Post Good Bad (committed (with_unit r) s).0 (committed (with_unit r) s).1
    fin (ok d) s q h = (step s.db d q h.0, h.1)
    fin (err e) s q h = h

    at :
        (fs : List Bool) (s : Store)
        → On P s × K s.world
        → Post Good Bad
            ((asked (λ db. with_unit (f db)) fs >>= committed) s).0
            ((asked (λ db. with_unit (f db)) fs >>= committed) s).1
    at [] s h = fin (f s.db) s refl h
    at (true ∷ fs) s h = h
    at (false ∷ fs) s h = fin (f s.db) (record s { statement_faults = fs }) refl h

-- Calls on the files leave the tables, and end as the files say.
pub on_files-Ensures :
    {A : Type 0} (P : List Copy → List Location → Type 0) (w : Files.World) (m : Files.Os A)
    → Ensures
        (λ s. On P s × s.world ≡ w)
        (on_files m)
        (λ a s. On P s × ((after : Files.World) × (m w ≡ (ok a, after))))
        (λ e s. On P s)
unfolding on_files
on_files-Ensures {A = A} P w m = record {
  at = λ s h. at (m s.world).0 (m s.world).1 s (ap m h.1) h.0;
}
  where
    at :
        (r : Result Files.Error A) (t : Files.World) (s : Store)
        → (r, t) ≡ m w
        → On P s
        → Post
            (λ a s. On P s × ((after : Files.World) × (m w ≡ (ok a, after))))
            (λ e s. On P s)
            (filed (r, t) s).0
            (filed (r, t) s).1
    at (ok a) t s q h = (h, (t, sym q))
    at (err e) t s q h = h

-- How a statement ended.
abbrev pub Says : (Db → Result Catalog.Error Db) → Db → Result Failure (Unit {0}) → Store → Type 0
Says f d (ok u) t = f d ≡ ok t.db
Says f d (err e) t =
    (t.db ≡ d)
    × ((e ≡ statement_failed) ⊎ ((x : Catalog.Error) × (e ≡ catalog_error x) × (f d ≡ err x)))

pub statement-Says :
    (f : Db → Result Catalog.Error Db) (s : Store) → Says f s.db (statement f s).0 (statement f s).1
unfolding statement change_with ask
statement-Says f s = at s.statement_faults s
  where
    fin :
        (r : Result Catalog.Error Db) (s : Store)
        → f s.db ≡ r
        → Says f s.db (committed (with_unit r) s).0 (committed (with_unit r) s).1
    fin (ok d) s q = q
    fin (err e) s q = (refl, inr (e, refl, q))

    at :
        (fs : List Bool) (s : Store)
        → Says f s.db
            ((asked (λ db. with_unit (f db)) fs >>= committed) s).0
            ((asked (λ db. with_unit (f db)) fs >>= committed) s).1
    at [] s = fin (f s.db) s refl
    at (true ∷ fs) s = (refl, inl refl)
    at (false ∷ fs) s = fin (f s.db) (record s { statement_faults = fs }) refl

-- A query answers from the database, which it leaves.
pub ask-Ensures :
    {A : Type 0} (d : Db) (f : Db → A)
    → Ensures (λ s. s.db ≡ d) (ask f) (λ a s. (s.db ≡ d) × (a ≡ f d)) (λ e s. s.db ≡ d)
unfolding ask
ask-Ensures {A = A} d f = record { at = λ s h. at s.statement_faults s h }
  where
    at :
        (fs : List Bool) (s : Store)
        → s.db ≡ d
        → Post (λ a s. (s.db ≡ d) × (a ≡ f d)) (λ e s. s.db ≡ d) (asked f fs s).0 (asked f fs s).1
    at [] s h = (h, ap f h)
    at (true ∷ fs) s h = h
    at (false ∷ fs) s h = (h, ap f h)

pub query-Ensures :
    {A : Type 0} (d : Db) (f : Db → Result Catalog.Error A)
    → Ensures (λ s. s.db ≡ d) (query f) (λ a s. (s.db ≡ d) × (f d ≡ ok a)) (λ e s. s.db ≡ d)
unfolding query
query-Ensures {A = A} d f = Ensures-bind _ _ (ask-Ensures d f) back
  where
    back :
        (r : Result Catalog.Error A)
        → Ensures
            (λ s. (s.db ≡ d) × (r ≡ f d))
            (wrapped r)
            (λ a s. (s.db ≡ d) × (f d ≡ ok a))
            (λ e s. s.db ≡ d)
    back (ok a) = record { at = λ s h. (h.0, sym h.1) }
    back (err e) = record { at = λ s h. h.0 }

-- A query that succeeds tells what the database answers, and keeps what holds of it.
pub query-rule :
    {A : Type 0} (P : Db → Type 0) (f : Db → Result Catalog.Error A)
    → Ensures (λ s. P s.db) (query f) (λ a s. P s.db × (f s.db ≡ ok a)) (λ e s. P s.db)
query-rule {A = A} P f = record {
  at = λ s h.
      (Ensures-weaken (query f) (λ a t k. (subst P (sym k.0) h, ap f k.0 ∙ k.1))
          (λ e t k. subst P (sym k) h) (query-Ensures s.db f)).at
        s refl;
}

-- A statement takes what holds of the database from `P` to `Q`.
pub statement-rule :
    (P Q : Db → Type 0) (f : Db → Result Catalog.Error Db)
    → ((db db' : Db) → f db ≡ ok db' → P db → Q db')
    → Ensures (λ s. P s.db) (statement f) (λ u s. Q s.db) (λ e s. P s.db)
statement-rule P Q f step = record {
  at = λ s h. at s h (statement f s).0 (statement f s).1 (statement-Says f s);
}
  where
    at :
        (s : Store)
        → P s.db
        → (r : Result Failure (Unit {0})) (t : Store) → Says f s.db r t
        → Post (λ u x. Q x.db) (λ e x. P x.db) r t
    at s h (ok u) t k = step s.db t.db k h
    at s h (err e) t k = subst P (sym k.0) h

pub ruleset kept_rules = (
  keeps_rules, ask-Keeps, query-Keeps, on_files-Keeps, on_tree-Keeps, tried-Keeps, statement-Keeps,
  put_companion-Untouched, delete_companion-Untouched, set_full_sha256-Untouched,
)
