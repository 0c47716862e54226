-- ===== src/Linktree.antt =====
-- linktree/linktree.go: the tree of symlinks that the editor sees. A path below its root stands for
-- itself; the directories above an entry are not entries, so MkdirAll succeeds or fails and leaves
-- the entries. A failed Reconcile's partial report is left out.
pub mod Choice
pub mod Swap
pub mod Place
pub mod RealFiles
pub mod Tests
use mediamanager.Base.Sorting.{sort}
use mediamanager.Base.Exec.{Exec, pure, fail, ◌>>=◌, ◌>>◌}
use mediamanager.Base.{
  ◌&&◌, ℕ, ◌+◌, ◌/◌, Bool, true, false, ◌||◌, not, Option, none, some, List, [], ◌∷◌, ◌++◌, map,
  if◌then◌else◌, keep, is_empty, any, Text, codes, text_ltb, has_prefix, ℕ_eq, Text_eq, Pair_eq,
  ◌==◌, Result, err, ok,
}
use mediamanager.SlashPath
use mediamanager.Table.{find, put, change, remove}
use mediamanager.Scan.{base, is_junk}
use mediamanager.Catalog.{LocationKind_eq, Location, complete, CopyState_eq, JoinedCopy, Role_eq}

-- tmpPrefix
abbrev pub tmp_prefix : Text
tmp_prefix = codes ".mm-tmp-"

pub data Node : Type 0 where
  symlink : Text → Node
  regular directory : Node

-- The entries below the root, in the order of a walk, and for each call to come whether it fails.
pub record State : Type 0 where
  pub entries : List (Text × Node)
  pub faults : List Bool

pub data Failure : Type 0 where
  not_exist invalid exists failed : Failure
  not_absolute not_symlink real_files : Failure

abbrev pub TreeOs : Type 0 → Type 0
TreeOs = Exec State Failure

abbrev pub path_of : Text × Node → Text
path_of e = e.0

abbrev pub at : State → Text → Option (Text × Node)
at s p = find path_of p s.entries

abbrev pub faulted : List Bool → List (Text × Node) → Result Failure Unit × State
faulted [] es = (ok tt, record { entries = es; faults = [] })
faulted (true ∷ fs) es = (err failed, record { entries = es; faults = fs })
faulted (false ∷ fs) es = (ok tt, record { entries = es; faults = fs })

-- One call, which may fail.
unfoldable pub call : TreeOs Unit
call s = faulted s.faults s.entries

abbrev pub read_node : Option (Text × Node) → TreeOs Text
read_node none = fail not_exist
read_node (some (p, symlink t)) = pure t
read_node (some (p, regular)) = fail invalid
read_node (some (p, directory)) = fail invalid

-- os.Readlink
unfoldable pub readlink : Text → TreeOs Text
readlink p = do call; (λ s. read_node (at s p) s)

abbrev pub make_node : Text → Text → Option (Text × Node) → TreeOs Unit
make_node target p none s =
    (ok tt, record s { entries = put path_of (p, symlink target) s.entries })
make_node target p (some e) s = (err exists, s)

-- os.Symlink
unfoldable pub make_symlink : Text → Text → TreeOs Unit
make_symlink target p = do call; (λ s. make_node target p (at s p) s)

abbrev pub below : Text → Text × Node → Bool
below p e = has_prefix e.0 (p ++ codes "/")

abbrev pub remove_node : Text → Option (Text × Node) → TreeOs Unit
remove_node p none s = (err not_exist, s)
remove_node p (some e) s =
    if any (below p) s.entries
    then (err failed, s)
    else (ok tt, record s { entries = remove path_of p s.entries })

-- os.Remove: a directory goes only when it is empty.
unfoldable pub remove_entry : Text → TreeOs Unit
remove_entry p = do call; (λ s. remove_node p (at s p) s)

abbrev pub move_node : Text → Text → Option (Text × Node) → Option (Text × Node) → TreeOs Unit
move_node from to none old s = (err not_exist, s)
move_node from to (some e) (some (q, directory)) s = (err exists, s)
move_node from to (some e) old s =
    (ok tt, record s { entries = put path_of (to, e.1) (remove path_of from s.entries) })

-- os.Rename
unfoldable pub rename : Text → Text → TreeOs Unit
rename from to = do call; (λ s. move_node from to (at s from) (at s to) s)

-- `_ = f()`: the failure is dropped.
abbrev pub attempt : TreeOs Unit → TreeOs Unit
attempt m s = (ok tt, (m s).1)

abbrev pub is_ok : Result Failure Unit → Bool
is_ok (ok u) = true
is_ok (err e) = false

-- The same, where it matters later whether it was done.
abbrev pub removed : TreeOs Unit → TreeOs Bool
removed m s = (ok (is_ok (m s).0), (m s).1)

abbrev pub or_else : Result Failure Unit → TreeOs Unit → TreeOs Unit
or_else (ok u) undo = pure u
or_else (err e) undo = do undo; fail e

-- The temporary name a swap goes through.
unfoldable pub tmp_of : Text → Text
tmp_of rel = SlashPath.join (SlashPath.dir rel ∷ (tmp_prefix ++ SlashPath.base rel) ∷ [])

-- swap
unfoldable pub swap : Text → Text → TreeOs Unit
swap rel target = do
  let tmp = tmp_of rel
  attempt (remove_entry tmp)
  make_symlink target tmp
  λ s. or_else (rename tmp rel s).0 (attempt (remove_entry tmp)) (rename tmp rel s).1

-- What was done for one link.
pub data Change : Type 0 where
  unchanged updated created : Change

abbrev pub place_as : Text → Text → Result Failure Text → TreeOs Change
place_as rel target (ok have) =
    if have == target then pure unchanged else (do swap rel target; pure updated)
place_as rel target (err not_exist) = do call; swap rel target; pure created
place_as rel target (err e) = fail not_symlink

-- One round of Reconcile's loop.
unfoldable pub place : Text → Text → TreeOs Change
place rel target = if not (SlashPath.is_abs target) then fail not_absolute else λ s.
    place_as rel target (readlink rel s).0 (readlink rel s).1

-- Set: whether anything changed.
unfoldable pub set : Text → Text → TreeOs Bool
unfolding place
set rel target = do
  change ← place rel target
  pure (elim change [ unchanged ↦ false | other ↦ true ])

-- Report
pub record Report : Type 0 where
  pub created_links : List Text
  pub updated_links : List Text
  pub unchanged_links : ℕ
  pub unknown_links : List Text

abbrev pub note : Change → Text → Report → Report
note unchanged rel rep = record rep { unchanged_links = rep.unchanged_links + 1 }
note updated rel rep = record rep { updated_links = rep.updated_links ++ (rel ∷ []) }
note created rel rep = record rep { created_links = rep.created_links ++ (rel ∷ []) }

unfoldable pub place_all : List (Text × Text) → Report → TreeOs Report
place_all [] rep = pure rep
place_all ((rel, target) ∷ want) rep = do
  change ← place rel target
  place_all want (note change rel rep)

-- Whether a walk passes an entry by: it or a directory above it is junk.
unfoldable pub in_junk : Text → Bool
in_junk rel = any is_junk (SlashPath.elements rel)

abbrev pub is_directory : Node → Bool
is_directory directory = true
is_directory other = false

-- The callback of extraLinks over the entries of the walk, which ends with a failure when it comes to
-- list a directory that is removed.
unfoldable pub collect_extra :
    List (Text × Text) → List (Text × Node) → List Text → TreeOs (List Text)
unfolding in_junk
collect_extra want [] extra = pure extra
collect_extra want ((rel, node) ∷ es) extra =
    if in_junk rel
    then collect_extra want es extra
    else if has_prefix (SlashPath.base rel) tmp_prefix
    then (do
      gone ← removed (remove_entry rel)
      if gone && is_directory node then fail not_exist else collect_extra want es extra)
    else elim node [
      | symlink t ↦
          collect_extra want es
            (if any (λ (w : Text × Text). w.0 == rel) want then extra else extra ++ (rel ∷ []))
      | other ↦ collect_extra want es extra
    ]

-- extraLinks
unfoldable pub extra_links : List (Text × Text) → TreeOs (List Text)
unfolding collect_extra
extra_links want = do
  call
  extra ← (λ s. collect_extra want s.entries [] s)
  pure (sort text_ltb extra)

unfoldable pub prune_all : List Text → TreeOs Unit
prune_all [] = pure tt
prune_all (rel ∷ rels) = do remove_entry rel; prune_all rels

abbrev pub want_ltb : Text × Text → Text × Text → Bool
want_ltb a b = text_ltb a.0 b.0

-- Reconcile
unfoldable pub reconcile : List (Text × Text) → Bool → TreeOs Report
unfolding place_all extra_links prune_all
reconcile want prune = do
  call
  rep ←
      place_all (sort want_ltb want)
        (record { created_links = []; updated_links = []; unchanged_links = 0; unknown_links = [] })
  unknown ← extra_links want
  let done = record rep { unknown_links = unknown }
  if prune then (do prune_all unknown; pure done) else pure done

-- Audit: the entries that are neither symlinks nor directories.
unfoldable pub bad_entries : List (Text × Node) → List Text
unfolding in_junk
bad_entries [] = []
bad_entries ((rel, node) ∷ es) =
    let rest = bad_entries es in
    if in_junk rel || any (λ n. has_prefix n tmp_prefix) (SlashPath.elements rel)
    then rest
    else elim node [ regular ↦ rel ∷ rest | other ↦ rest ]

unfoldable pub audit : TreeOs Unit
unfolding bad_entries
audit = do call; λ s. if is_empty (bad_entries s.entries) then (ok tt, s) else (err real_files, s)

-- Dangling: `there` is os.Stat on a target.
unfoldable pub dangling : (Text → Bool) → State → List Text
dangling there s =
    sort text_ltb
      (map path_of (keep (λ e. elim e.1 [ symlink t ↦ not (there t) | other ↦ false ]) s.entries))

-- Choose: the first complete copy whose location has a root.
unfoldable pub choose : List JoinedCopy → (Location → Option Text) → Option Text
choose [] root_of = none
choose (c ∷ cs) root_of =
    let rest = choose cs root_of in
    if not (c.copy.state == complete) then rest else elim (root_of c.location) [
      | none ↦ rest
      | some root ↦ some (SlashPath.join (root ∷ c.copy.rel_path ∷ []))
    ]
