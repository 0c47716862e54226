-- ===== src/Ingest/Flushing.antt =====
-- ingest/steps.go: Flush. A report that comes with a failure is left out. A file that is there can be
-- read when a pair is verified.
use mediamanager.Base.Exec.{pure, fail, ◌>>=◌, ◌>>◌}
use mediamanager.Base.{
  ℕ, ◌+◌, Bool, ◌&&◌, not, Option, none, some, List, [], ◌∷◌, ◌++◌, ltb, leb, if◌then◌else◌,
  is_empty, Text, ℕ_eq, Text_eq, Pair_eq, ◌==◌, Result, err, ok,
}
use mediamanager.Ingest.Store.{
  Store, no_such_spool, spool_not_mounted, Step, ask, on_files, statement,
}
use mediamanager.Ingest.Env.{Env, Place, root_of_places, source_roots}
use mediamanager.Catalog.{
  spool, LocationKind_eq, Location, Asset, CopyState_eq, JoinedCopy, Role_eq,
}
use mediamanager.Clock.{Time, is_zero, before}
use mediamanager.Identity
use mediamanager.Files.{File, found, check_context}
use mediamanager.Ingest.{Reason, abs, flush_pair}
use mediamanager.Ingest.Reconcile.{reconcile_trees}
use mediamanager.Ingest.Companions.{remove_if_there, drop_spool_companions}
use mediamanager.Catalog.Copies.{delete_copy, copies}
use mediamanager.Catalog.Worklists.{flushable}

-- FlushOptions
pub record FlushOptions : Type 0 where
  pub free_bytes : ℕ
  pub older_than : Time
  pub dry_run : Bool

-- FlushReport
pub record FlushReport : Type 0 where
  pub flushed : List Text
  pub freed : ℕ
  pub refused : List (Text × Reason)

abbrev pub nothing_flushed : FlushReport
nothing_flushed = record { flushed = []; freed = 0; refused = [] }

unfoldable pub with_flushed : Asset → FlushReport → FlushReport
with_flushed a rep = record rep { flushed = rep.flushed ++ (a.id ∷ []); freed = rep.freed + a.size }

-- The content of a file, as identity.SparseFile reads it.
abbrev pub content_of : Option File → Option (List ℕ)
content_of none = none
content_of (some f) = some f.content

module _ (sha256 : Identity.Bytes → Identity.Bytes) (env : Env) where
  -- The pair that may be flushed, with the files as they are now.
  unfoldable pub judged :
      Asset
      → List JoinedCopy
      → Place
      → (Location → Option Text)
      → Store
      → Result Reason (JoinedCopy × JoinedCopy)
  unfolding flush_pair
  judged a cs p root_of s =
      flush_pair sha256 (λ path. content_of (s.world.files path)) a cs p.cat.id p.root root_of

  -- The end of a round: what is done with one candidate once it is judged.
  unfoldable pub flush_judged :
      FlushOptions
      → Place
      → (Location → Option Text)
      → Asset
      → FlushReport
      → Result Reason (JoinedCopy × JoinedCopy)
      → Step FlushReport
  unfolding on_files remove_if_there statement drop_spool_companions with_flushed
  flush_judged opts p root_of a rep (err why) =
      pure (record rep { refused = rep.refused ++ ((a.id, why) ∷ []) })
  flush_judged opts p root_of a rep (ok pair) =
      if opts.dry_run then pure (with_flushed a rep) else (do
        on_files (remove_if_there (abs p.root pair.0.copy.rel_path))
        statement (λ db. delete_copy db a.id p.cat.id)
        drop_spool_companions sha256 env a p root_of
        pure (with_flushed a rep))

  -- One candidate that is not passed by.
  unfoldable pub flush_one :
      FlushOptions → Place → (Location → Option Text) → Asset → FlushReport → Step FlushReport
  unfolding on_files ask judged flush_judged
  flush_one opts p root_of a rep = do
    on_files check_context
    cs ← ask (λ db. copies db a.id)
    λ s. flush_judged opts p root_of a rep (judged a cs p root_of s) s

  unfoldable pub enough : FlushOptions → FlushReport → Bool
  enough opts rep = ltb 0 opts.free_bytes && leb opts.free_bytes rep.freed

  unfoldable pub too_new : FlushOptions → Asset → Bool
  too_new opts a = not (is_zero opts.older_than) && not (before a.capture_time opts.older_than)

  -- The loop of Flush over the candidates.
  unfoldable pub flush_all :
      FlushOptions → Place → (Location → Option Text) → List Asset → FlushReport → Step FlushReport
  unfolding flush_one enough too_new
  flush_all opts p root_of [] rep = pure rep
  flush_all opts p root_of (a ∷ more) rep =
      if enough opts rep
      then pure rep
      else if too_new opts a
      then flush_all opts p root_of more rep
      else (do rep' ← flush_one opts p root_of a rep; flush_all opts p root_of more rep')

  -- The spool of a name: the last place that has it.
  unfoldable pub spool_named : Text → List Place → Option Place → Option Place
  spool_named name [] found = found
  spool_named name (p ∷ ps) found =
      spool_named name ps (if p.cat.name == name && p.cat.kind == spool then some p else found)

  abbrev pub ready_spool : Option Place → Step Place
  ready_spool none = fail no_such_spool
  ready_spool (some p) = if p.mounted then pure p else fail spool_not_mounted

  -- Flush
  unfoldable pub flush : List Place → Text → FlushOptions → Step FlushReport
  unfolding spool_named source_roots root_of_places ask flushable flush_all reconcile_trees
  flush ps spool_name opts = do
    p ← ready_spool (spool_named spool_name ps none)
    sources ← source_roots env
    candidates ← ask (λ db. flushable db p.cat.id)
    rep ← flush_all opts p (root_of_places ps sources) candidates nothing_flushed
    if not opts.dry_run && not (is_empty rep.flushed)
        then (do links ← reconcile_trees sha256 env ps; pure rep)
        else pure rep
