-- ===== src/Ingest/Verify.antt =====
-- ingest/verify.go: how Verify checks one copy. A file is read by `read`; one that cannot be is `none`.
use mediamanager.Base.{
  ℕ, ◌*◌, min, Bool, true, false, ◌&&◌, not, Option, none, some, [], if◌then◌else◌, length, Text,
  ℕ_eq, Text_eq, Pair_eq, ◌==◌, Result, err, ok, ◌>>=◌,
}
use mediamanager.Media.{Kind_eq, uses_sparse_id}
use mediamanager.Identity
use mediamanager.Identity.{Bytes, chunk, sparse_file, full}
use mediamanager.Catalog.{LocationKind_eq, Asset, CopyState_eq, Role_eq}

-- bytesToRead
unfoldable pub bytes_to_read : Asset → Bool → ℕ
bytes_to_read a full_hash =
    if full_hash then a.size else if uses_sparse_id a.kind then min a.size (2 * chunk) else 0

-- VerifyItem.Result, of one copy on its own.
pub data Fault : Type 0 where
  missing wrong_size wrong_identity wrong_hash : Fault

abbrev pub read_or_missing : Option Bytes → Result Fault Bytes
read_or_missing none = err missing
read_or_missing (some b) = ok b

-- The hash that the catalog has for an asset: a still's id is one.
unfoldable pub wanted_hash : Asset → Text
wanted_hash a = if a.full_sha256 == [] && not (uses_sparse_id a.kind) then a.id else a.full_sha256

module _ (sha256 : Bytes → Bytes) (read : Text → Option Bytes) where
  unfoldable pub check_identity : Asset → Bytes → Result Fault Unit
  check_identity a b =
      if uses_sparse_id a.kind
      then elim (Identity.sparse_file sha256 b) [
        | err e ↦ err missing
        | ok r ↦ if not (r.0 == a.id) then err wrong_identity else ok tt
      ]
      else ok tt

  unfoldable pub check_hash : Asset → Bytes → Bool → Result Fault Text
  unfolding wanted_hash
  check_hash a b false = ok []
  check_hash a b true =
      let sum = Identity.full sha256 b in
      if not (wanted_hash a == []) && not (sum == wanted_hash a) then err wrong_hash else ok sum

  -- checkCopy: the full hash, when it is asked for.
  unfoldable pub check_copy : Asset → Text → Bool → Result Fault Text
  unfolding check_identity check_hash
  check_copy a path full_hash = do
    b ← read_or_missing (read path)
    if not (length b == a.size)
        then err wrong_size
        else (do u ← check_identity a b; check_hash a b full_hash)
