-- ===== src/Ingest/Check.antt =====
-- What it means that checkCopy of ingest/verify.go passes a copy.
use mediamanager.Ingest.Verify.{
  check_identity, check_copy, check_hash, wanted_hash, read_or_missing,
}
use mediamanager.Base.{
  ℕ, ◌≡◌, ◌≢◌, refl, sym, ap, ◌∙◌, ◌⊎◌, inl, inr, Bool, true, false, not, Option, some, [], arith,
  Option-cases, length, Text, text_eq_iff, ℕ_eq, Text_eq, Pair_eq, ◌==◌, ok, >>=-eq-ok,
  Result-cases, if-err,
}
use mediamanager.Media.{video, audio, still, kind_eq, Kind_eq, uses_sparse_id}
use mediamanager.Identity.{Bytes, sparse_file, full}
use mediamanager.Catalog.{LocationKind_eq, Asset, CopyState_eq, Role_eq}

-- The file has the asset's size, the asset's sparse identity for video and audio, and, where the full
-- hash was asked for, the hash that the catalog has, if it has one.
pub record Intact (sha256 : Bytes → Bytes) (read : Text → Option Bytes) (a : Asset) (path : Text)
    (full_hash : Bool) (sum : Text) : Type 0 where
  pub bytes : Bytes
  pub readable : read path ≡ some bytes
  pub size : length bytes ≡ a.size
  pub identity :
      (a.kind ≡ video) ⊎ (a.kind ≡ audio) → (n : ℕ) × (sparse_file sha256 bytes ≡ ok (a.id, n))
  pub summed : full_hash ≡ true → sum ≡ full sha256 bytes
  pub hash : full_hash ≡ true → a.full_sha256 ≢ [] → sum ≡ a.full_sha256
  pub still_hash : full_hash ≡ true → a.kind ≡ still → a.full_sha256 ≡ [] → a.id ≢ [] → sum ≡ a.id

recording : (a : Asset) → (a.kind ≡ video) ⊎ (a.kind ≡ audio) → uses_sparse_id a.kind ≡ true
unfolding uses_sparse_id kind_eq
recording a (inl e) = rw e refl
recording a (inr e) = rw e refl

-- The hash that is compared: the recorded one, or the id of a still.
wanted_hash-recorded : (a : Asset) → a.full_sha256 ≢ [] → wanted_hash a ≡ a.full_sha256
unfolding wanted_hash
wanted_hash-recorded a n = ground (arith, text_eq_iff a.full_sha256 [], n)

wanted_hash-still : (a : Asset) → a.kind ≡ still → a.full_sha256 ≡ [] → wanted_hash a ≡ a.id
unfolding wanted_hash uses_sparse_id kind_eq mediamanager.Base.text_eq
wanted_hash-still a k e = rw (k, e) refl

module _ (sha256 : Bytes → Bytes) (read : Text → Option Bytes) where
  identity_of :
      (a : Asset) (b : Bytes)
      → check_identity sha256 read a b ≡ ok tt
      → uses_sparse_id a.kind ≡ true
      → (n : ℕ) × (sparse_file sha256 b ≡ ok (a.id, n))
  unfolding check_identity
  identity_of a b q u = elim (Result-cases (sparse_file sha256 b)) [
    | inl (r, e) ↦ (r.1, e ∙ ap ok (ground (arith, q, u, e, text_eq_iff r.0 a.id)))
    | inr (x, e) ↦ absurd (ground (arith, q, u, e))
  ]

  hash_of :
      (a : Asset) (b : Bytes) (full_hash : Bool) (sum : Text)
      → check_hash sha256 read a b full_hash ≡ ok sum
      → full_hash ≡ true
      → (sum ≡ full sha256 b) × ((wanted_hash a ≡ []) ⊎ (sum ≡ wanted_hash a))
  unfolding check_hash
  hash_of a b false sum q t = ground (arith, t)
  hash_of a b true sum q t = (
    ground (arith, q),
    ground (arith, q, text_eq_iff (wanted_hash a) [], text_eq_iff (full sha256 b) (wanted_hash a)),
  )

  -- A copy that checkCopy passes is a file with the size of the asset and, for video and audio,
  -- with the id of the asset as its sparse identity. Where the full hash was asked for, it is
  -- returned, and it is the recorded full hash, if there is one, and for a still without one the
  -- id, if that is not empty.
  pub check_copy-Intact :
      (a : Asset) (path : Text) (full_hash : Bool) (sum : Text)
      → check_copy sha256 read a path full_hash ≡ ok sum
      → Intact sha256 read a path full_hash sum
  unfolding check_copy
  check_copy-Intact a path full_hash sum q =
      let (b, e, q1) = >>=-eq-ok (read_or_missing (read path)) _ q in
      let q2 = if-err (not (length b == a.size)) _ _ q1 in
      let (u, f, q3) = >>=-eq-ok (check_identity sha256 read a b) _ q2 in
      record {
        bytes = b;
        readable = elim (Option-cases (read path)) [
          | inl n ↦ absurd (ground (arith, e, n))
          | inr (c, n) ↦ ground (arith, e, n)
        ];
        size = ground (arith, q1);
        identity = λ k. identity_of a b f (recording a k);
        summed = λ t. (hash_of a b full_hash sum q3 t).0;
        hash = λ t n. elim (hash_of a b full_hash sum q3 t).1 [
          | inl w ↦ absurd (n (sym (wanted_hash-recorded a n) ∙ w))
          | inr w ↦ w ∙ wanted_hash-recorded a n
        ];
        still_hash = λ t k e n. elim (hash_of a b full_hash sum q3 t).1 [
          | inl w ↦ absurd (n (sym (wanted_hash-still a k e) ∙ w))
          | inr w ↦ w ∙ wanted_hash-still a k e
        ];
      }
