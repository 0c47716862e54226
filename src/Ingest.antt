-- ===== src/Ingest.antt =====
-- ingest/steps.go: what is decided before a spool copy is deleted, and whose a companion is. A file is
-- read by `read`; one that cannot be is `none`.
pub mod Pick
pub mod Flush
pub mod Verify
pub mod Check
pub mod Owner
pub mod Store
pub mod Env
pub mod Source
pub mod Scanned
pub mod Companions
pub mod Transfer
pub mod Flushing
pub mod Sweep
pub mod Reconcile
pub mod Kept
pub mod Tiers
pub mod Import
pub mod Listing
pub mod Batches
pub mod Scenarios
pub mod Tests
use mediamanager.Base.{
  ℕ, Bool, ◌&&◌, ◌||◌, not, Option, none, some, List, [], ◌∷◌, ltb, if◌then◌else◌, any, Text, codes,
  trim_prefix, lower, ℕ_eq, Text_eq, Pair_eq, ◌==◌, Result, err, ok, ◌>>=◌,
}
use mediamanager.Media.{video, still, Kind_eq, uses_sparse_id}
use mediamanager.SlashPath
use mediamanager.Identity
use mediamanager.Identity.{Bytes, sparse_file}
use mediamanager.Naming.{proxy_path, sidecar_path, proxy_sidecar_path}
use mediamanager.Catalog.{
  nas, LocationKind_eq, Location, Asset, complete, CopyState_eq, Copy, JoinedCopy, Role, proxy,
  sidecar, proxy_sidecar, Role_eq,
}

-- Why an asset is kept on a spool.
pub data Reason : Type 0 where
  no_spool_copy no_nas_copy hashes_differ nas_unreadable spool_unreadable : Reason
  nas_size spool_size copies_differ not_identity : Reason

-- hasComplete
unfoldable pub has_complete : List JoinedCopy → ℕ → Bool
has_complete cs location_id =
    any (λ (c : JoinedCopy). c.copy.location_id == location_id && c.copy.state == complete) cs

-- companionPath
unfoldable pub companion_path : Text → Role → Text → Text
companion_path rel sidecar ext = sidecar_path rel ext
companion_path rel proxy_sidecar ext = proxy_sidecar_path rel ext
companion_path rel proxy ext = proxy_path rel ext

-- abs
abbrev pub abs : Text → Text → Text
abs root rel = SlashPath.join (root ∷ rel ∷ [])

-- One round of pickFlushPair's loop: the last complete copy on the spool, and the first complete
-- copy on a mounted NAS.
unfoldable pub pick_step :
    ℕ
    → (Location → Option Text)
    → Option JoinedCopy × Option JoinedCopy
    → JoinedCopy
    → Option JoinedCopy × Option JoinedCopy
pick_step spool_id root_of (s, n) c =
    if not (c.copy.state == complete)
    then (s, n)
    else if c.copy.location_id == spool_id
    then (some c, n)
    else if c.location.kind == nas
    then (
      s,
      elim n [
        | some d ↦ some d
        | none ↦ elim (root_of c.location) [ none ↦ none | some r ↦ some c ]
      ],
    )
    else (s, n)

unfoldable pub pick_all :
    ℕ
    → (Location → Option Text)
    → Option JoinedCopy × Option JoinedCopy
    → List JoinedCopy
    → Option JoinedCopy × Option JoinedCopy
unfolding pick_step
pick_all spool_id root_of p [] = p
pick_all spool_id root_of p (c ∷ cs) = pick_all spool_id root_of (pick_step spool_id root_of p c) cs

abbrev pub picked : Option JoinedCopy × Option JoinedCopy → Result Reason (JoinedCopy × JoinedCopy)
picked (none, n) = err no_spool_copy
picked (some s, none) = err no_nas_copy
picked (some s, some n) = ok (s, n)

-- pickFlushPair
unfoldable pub pick_flush_pair :
    List JoinedCopy → ℕ → (Location → Option Text) → Result Reason (JoinedCopy × JoinedCopy)
unfolding pick_all
pick_flush_pair cs spool_id root_of = picked (pick_all spool_id root_of (none, none) cs)

abbrev pub read_as : Reason → Option Bytes → Result Reason Bytes
read_as e none = err e
read_as e (some b) = ok b

-- mustRoot
abbrev pub root_or_empty : Option Text → Text
root_or_empty none = []
root_or_empty (some r) = r

module _ (sha256 : Bytes → Bytes) (read : Text → Option Bytes) where
  -- identity.SparseFile of a path: a file of any size has one, so only reading fails.
  unfoldable pub sparse_at : Reason → Text → Result Reason (Text × ℕ)
  sparse_at e path = do
    b ← read_as e (read path)
    elim (Identity.sparse_file sha256 b) [ ok r ↦ ok r | err x ↦ err e ]

  -- verifyPair
  unfoldable pub verify_pair : Asset → Text → Text → Copy → Copy → Result Reason (Unit {0})
  unfolding sparse_at
  verify_pair a spool_path nas_path s n =
      if not (s.full_sha256 == [])
        && not (n.full_sha256 == [])
        && not (s.full_sha256 == n.full_sha256)
      then err hashes_differ
      else (do
        nas_is ← sparse_at nas_unreadable nas_path
        spool_is ← sparse_at spool_unreadable spool_path
        if not (nas_is.1 == a.size)
            then err nas_size
            else if not (spool_is.1 == a.size)
            then err spool_size
            else if not (nas_is.0 == spool_is.0)
            then err copies_differ
            else if uses_sparse_id a.kind && not (nas_is.0 == a.id)
            then err not_identity
            else ok tt)

  -- What Flush decides of one candidate before it deletes: the pair, or why the asset is kept.
  unfoldable pub flush_pair :
      Asset
      → List JoinedCopy
      → ℕ
      → Text
      → (Location → Option Text)
      → Result Reason (JoinedCopy × JoinedCopy)
  unfolding pick_flush_pair verify_pair
  flush_pair a cs spool_id spool_root root_of = do
    p ← pick_flush_pair cs spool_id root_of
    u ←
        verify_pair a (abs spool_root p.0.copy.rel_path)
          (abs (root_or_empty (root_of p.1.location)) p.1.copy.rel_path) p.0.copy p.1.copy
    ok p

-- derived
abbrev pub derived : List Text
derived = codes "jpg" ∷ codes "jpeg" ∷ codes "heic" ∷ codes "heif" ∷ []

-- The score of a candidate in preferredOwner.
unfoldable pub score : Text → Asset → ℕ
score ext a =
    let aext = lower (trim_prefix (SlashPath.ext a.rel_path) (codes ".")) in
    let metadata = ext == codes "xmp" || ext == codes "phos" in
    if ext == codes "sidecar" && a.kind == video
    then 3
    else if metadata && a.kind == still && not (any (λ d. d == aext) derived)
    then 3
    else if metadata && a.kind == still
    then 2
    else if a.kind == video
    then 1
    else 0

-- The loop of preferredOwner.
unfoldable pub best_owner : Text → Asset → List Asset → Asset
best_owner ext best [] = best
best_owner ext best (c ∷ cs) =
    best_owner ext (if ltb (score ext best) (score ext c) then c else best) cs

-- preferredOwner, of at least one candidate
unfoldable pub preferred_owner : Asset → List Asset → Text → Asset
unfolding best_owner
preferred_owner first_one rest ext = best_owner ext first_one rest
