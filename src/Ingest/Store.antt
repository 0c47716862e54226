-- ===== src/Ingest/Store.antt =====
-- What a step of package ingest changes: the catalog, the files of the tiers and the link trees. Every
-- statement and every call may fail, as the store says; what was done before a failure stays done.
use mediamanager.Base.Exec.{Exec, pure, fail, ◌>>=◌}
use mediamanager.Base.{
  Bool, true, false, Option, none, some, List, [], ◌∷◌, if◌then◌else◌, Text, ℕ_eq, Text_eq, Pair_eq,
  ◌==◌, Result, err, ok,
}
use mediamanager.Files
use mediamanager.Files.{World, Error, Os}
use mediamanager.Catalog
use mediamanager.Catalog.{LocationKind_eq, CopyState_eq, Role_eq, Db}
use mediamanager.Config
use mediamanager.Naming
use mediamanager.Linktree
use mediamanager.Linktree.{State, TreeOs}

-- An entry of `statement_faults` is for one statement: whether the database fails it.
pub record Store : Type 0 where
  pub db : Db
  pub statement_faults : List Bool
  pub world : World
  pub trees : Text → Linktree.State

pub data Failure : Type 0 where
  statement_failed : Failure
  catalog_error : Catalog.Error → Failure
  file_error : Files.Error → Failure
  tree_error : Linktree.Failure → Failure
  config_error : Config.Error → Failure
  naming_error : Naming.Error → Failure
  no_tree no_readable_copy spool_full no_such_spool spool_not_mounted no_free_space : Failure
  no_free_name not_a_directory scan_failed no_match : Failure

abbrev pub Step : Type 0 → Type 0
Step = Exec Store Failure

module _ {A : Type 0} where
  abbrev pub from_result : {E : Type 0} → (E → Failure) → Result E A → Step A
  from_result wrap (ok a) = pure a
  from_result wrap (err e) = fail (wrap e)

  -- One statement that only reads.
  abbrev pub asked : (Db → A) → List Bool → Step A
  asked f [] s = (ok (f s.db), s)
  asked f (true ∷ fs) s = (err statement_failed, record s { statement_faults = fs })
  asked f (false ∷ fs) s = (ok (f s.db), record s { statement_faults = fs })

  unfoldable pub ask : (Db → A) → Step A
  ask f s = asked f s.statement_faults s

module _ {A : Type 0} where
  abbrev pub wrapped : Result Catalog.Error A → Step A
  wrapped (ok a) = pure a
  wrapped (err e) = fail (catalog_error e)

  unfoldable pub query : (Db → Result Catalog.Error A) → Step A
  unfolding ask
  query f = do r ← ask f; wrapped r

  abbrev pub committed : Result Catalog.Error (Db × A) → Step A
  committed (ok (d, a)) s = (ok a, record s { db = d })
  committed (err e) s = (err (catalog_error e), s)

  -- One statement that changes the database; a failing one leaves it.
  unfoldable pub change_with : (Db → Result Catalog.Error (Db × A)) → Step A
  unfolding ask
  change_with f = do r ← ask f; committed r

  abbrev pub filed : Result Files.Error A × World → Step A
  filed (ok a, w) s = (ok a, record s { world = w })
  filed (err e, w) s = (err (file_error e), record s { world = w })

  -- Calls on the files.
  unfoldable pub on_files : Os A → Step A
  on_files m s = filed (m s.world) s

  abbrev pub grown : Text → Result Linktree.Failure A × Linktree.State → Step A
  grown root (ok a, t) s = (ok a, record s { trees = λ p. if root == p then t else s.trees p })
  grown root (err e, t) s =
      (err (tree_error e), record s { trees = λ p. if root == p then t else s.trees p })

  -- Calls on the link tree at a root.
  unfoldable pub on_tree : Text → TreeOs A → Step A
  on_tree root m s = grown root (m (s.trees root)) s

  abbrev pub as_option : Result Failure A × Store → Result Failure (Option A) × Store
  as_option (ok a, s) = (ok (some a), s)
  as_option (err e, s) = (ok none, s)

  -- A step whose failure is logged, not returned.
  abbrev pub tried : Step A → Step (Option A)
  tried m s = as_option (m s)

abbrev pub with_unit : Result Catalog.Error Db → Result Catalog.Error (Db × Unit)
with_unit (ok d) = ok (d, tt)
with_unit (err e) = err e

-- A statement without a result.
unfoldable pub statement : (Db → Result Catalog.Error Db) → Step Unit
unfolding change_with
statement f = change_with (λ db. with_unit (f db))
