-- ===== src/Ingest/Flush.antt =====
-- Rule R4 of ingest/steps.go: what holds when a spool copy is about to be deleted.
use mediamanager.Base.{
  ℕ, ◌≡◌, ap, ◌∙◌, subst, ◌⊎◌, inl, inr, true, ◌&&◌, not, Option, some, List, [], arith,
  Option-cases, Text, text_eq_iff, ℕ_eq, Text_eq, Pair_eq, ◌==◌, ok, >>=-eq-ok, Result-cases,
  if-err,
}
use mediamanager.Media.{Kind_eq, uses_sparse_id}
use mediamanager.Catalog.{LocationKind_eq, Location, Asset, CopyState_eq, Copy, JoinedCopy, Role_eq}
use mediamanager.Ingest.{
  Reason, nas_unreadable, spool_unreadable, abs, pick_flush_pair, root_or_empty, sparse_at,
  verify_pair, flush_pair, Bytes, sparse_file,
}
use mediamanager.Ingest.Pick.{IsSpoolCopy, IsNasCopy, pick_flush_pair-Good}

-- Both files were read: they have the asset's size and one sparse identity, which for video and audio
-- is the asset's id, and the recorded full hashes agree where both are there.
pub record Verified (sha256 : Bytes → Bytes) (read : Text → Option Bytes) (a : Asset)
    (spool_path nas_path : Text) (s n : Copy) : Type 0 where
  pub spool_bytes : Bytes
  pub nas_bytes : Bytes
  pub spool_read : read spool_path ≡ some spool_bytes
  pub nas_read : read nas_path ≡ some nas_bytes
  pub id : Text
  pub spool_id : sparse_file sha256 spool_bytes ≡ ok (id, a.size)
  pub nas_id : sparse_file sha256 nas_bytes ≡ ok (id, a.size)
  pub asset_id : uses_sparse_id a.kind ≡ true → id ≡ a.id
  pub hashes : (s.full_sha256 ≡ []) ⊎ (n.full_sha256 ≡ []) ⊎ (s.full_sha256 ≡ n.full_sha256)

module _ (sha256 : Bytes → Bytes) (read : Text → Option Bytes) where
  sparse_at-eq-ok :
      (e : Reason) (path : Text) (r : Text × ℕ)
      → sparse_at sha256 read e path ≡ ok r
      → (b : Bytes) × (read path ≡ some b) × (sparse_file sha256 b ≡ ok r)
  unfolding sparse_at
  sparse_at-eq-ok e path r q = elim (Option-cases (read path)) [
    | inl n ↦ absurd (ground (arith, n))
    | inr (b, n) ↦ elim (Result-cases (sparse_file sha256 b)) [
      | inl (x, m) ↦ (b, n, ground (arith, n, m))
      | inr (x, m) ↦ absurd (ground (arith, n, m))
    ]
  ]

  verify_pair-Verified :
      (a : Asset) (spool_path nas_path : Text) (s n : Copy)
      → verify_pair sha256 read a spool_path nas_path s n ≡ ok tt
      → Verified sha256 read a spool_path nas_path s n
  unfolding verify_pair
  verify_pair-Verified a spool_path nas_path s n q =
      let q1 =
        if-err
          (not (s.full_sha256 == [])
            && not (n.full_sha256 == [])
            && not (s.full_sha256 == n.full_sha256))
          _ _ q in
      let (x, e, q2) = >>=-eq-ok (sparse_at sha256 read nas_unreadable nas_path) _ q1 in
      let (y, f, q3) = >>=-eq-ok (sparse_at sha256 read spool_unreadable spool_path) _ q2 in
      let (b, rb, ib) = sparse_at-eq-ok nas_unreadable nas_path x e in
      let (c, rc, ic) = sparse_at-eq-ok spool_unreadable spool_path y f in
      let same_id : x.0 ≡ y.0 = ground (arith, q3, text_eq_iff x.0 y.0) in
      let nas_is : x.1 ≡ a.size = ground (arith, q3) in
      let spool_is : y.1 ≡ a.size = ground (arith, q3) in
      record {
        spool_bytes = c;
        nas_bytes = b;
        spool_read = rc;
        nas_read = rb;
        id = x.0;
        spool_id = ic ∙ ap ok (cc);
        nas_id = ib ∙ ap ok (cc);
        asset_id = λ u. ground (arith, q3, u, text_eq_iff x.0 a.id);
        hashes = ground (
          arith,
          q,
          text_eq_iff s.full_sha256 [],
          text_eq_iff n.full_sha256 [],
          text_eq_iff s.full_sha256 n.full_sha256,
        );
      }

  -- Flush comes to delete a copy only when the copy is recorded as complete on that spool,
  -- another is recorded as complete on a mounted NAS, and both files have just been read: they
  -- have the size of the asset and one sparse identity, the one of the asset for video and
  -- audio, and the recorded full hashes agree where both are there.
  pub flush_pair-Verified :
      (a : Asset) (cs : List JoinedCopy) (spool_id : ℕ) (spool_root : Text)
      (root_of : Location → Option Text) (r : JoinedCopy × JoinedCopy)
      → flush_pair sha256 read a cs spool_id spool_root root_of ≡ ok r
      → IsSpoolCopy cs spool_id r.0
        × ((n : IsNasCopy cs spool_id root_of r.1) × Verified sha256 read a
              (abs spool_root r.0.copy.rel_path)
              (abs n.root r.1.copy.rel_path)
              r.0.copy
              r.1.copy)
  unfolding flush_pair
  flush_pair-Verified a cs spool_id spool_root root_of r q =
      let (p, e, q1) = >>=-eq-ok (pick_flush_pair cs spool_id root_of) _ q in
      let (u, f, q2) = >>=-eq-ok (verify_pair sha256 read a _ _ p.0.copy p.1.copy) _ q1 in
      let same : p ≡ r = cc in
      let g = pick_flush_pair-Good spool_id root_of cs p e in
      let v =
        verify_pair-Verified a (abs spool_root p.0.copy.rel_path)
          (abs (root_or_empty (root_of p.1.location)) p.1.copy.rel_path) p.0.copy p.1.copy f in
      subst
        (λ (x : JoinedCopy × JoinedCopy).
          IsSpoolCopy cs spool_id x.0
          × ((n : IsNasCopy cs spool_id root_of x.1) × Verified sha256 read a
                (abs spool_root x.0.copy.rel_path) (abs n.root x.1.copy.rel_path) x.0.copy
                x.1.copy))
        same
        (
          g.0,
          (
            g.1,
            subst
                (λ o.
                  Verified sha256 read a (abs spool_root p.0.copy.rel_path)
                    (abs (root_or_empty o) p.1.copy.rel_path) p.0.copy p.1.copy)
                g.1.mounted v,
          ),
        )
