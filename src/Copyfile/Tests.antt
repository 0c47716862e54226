-- ===== src/Copyfile/Tests.antt =====
-- Copies at concrete files, and the theorems on copyfile/copyfile.go applied to them. The hash is a
-- stand-in that keeps the bytes.
use mediamanager.Base.{
  ℕ, ◌≡◌, refl, ◌≢◌, inl, true, none, some, List, [], ◌∷◌, ◌++◌, arith, if◌then◌else◌, length, drop,
  codes, text_eq, text_eq_iff, ℕ_eq, Text_eq, Pair_eq, ◌==◌, ok,
}
use mediamanager.Base.Exec.Keeps.{Post}
use mediamanager.Clock.{zero_time}
use mediamanager.Files.{File, World, call, open_file, change_file, written, write_at, check_context}
use mediamanager.Copyfile.{
  partial_suffix, Options, with_defaults, tail_bytes, tail_matches, truncate, resume_point, stream,
  create, rename, verify, completed, finish, copy, sparse,
}
use mediamanager.Copyfile.Keeps.{Kept}
use mediamanager.Copyfile.Stream.{calm, Ran, stream_full}
use mediamanager.Copyfile.Fresh.{Copies, copy_fresh}
use mediamanager.Copyfile.Safe.{Delivered, copy_outcome}

abbrev same_bytes : List ℕ → List ℕ
same_bytes bs = bs

abbrev clip : File
clip = record { content = 1 ∷ 2 ∷ 3 ∷ []; mod_time = record zero_time { instant = 5 } }

-- The card has the clip, and the spool has its first byte from a copy that was cut short.
abbrev before : World
before = record {
  files = λ p.
      if p == codes "/card/c.mov"
      then some clip
      else if p == codes "/spool/c.mov.partial"
      then some (record clip { content = 1 ∷ [] })
      else none;
  faults = [];
  cancels = [];
}

abbrev plain : Options
plain = record { expect_id = []; buffer_size = 2; hash_resumed_prefix = true }

apart : codes "/card/c.mov" ≢ (codes "/spool/c.mov" ++ partial_suffix)
apart e = ground (arith, text_eq_iff (codes "/card/c.mov") (codes "/spool/c.mov.partial"))

there : before.files (codes "/card/c.mov") ≡ some clip
unfolding mediamanager.Base.text_eq
there = refl

-- The copy is taken up at the second byte, and the partial file is gone afterwards.
resumed_test :
    (copy same_bytes (codes "/card/c.mov") (codes "/spool/c.mov") plain before).1.files
      (codes "/spool/c.mov")
    ≡ some clip
unfolding copy mediamanager.Files.open_file text_eq mediamanager.Identity.sparse
    mediamanager.Identity.message mediamanager.Identity.chunk mediamanager.Identity.hash_range
    mediamanager.Copyfile.with_defaults mediamanager.Copyfile.completed mediamanager.Copyfile.create
    mediamanager.Copyfile.resume_point mediamanager.Copyfile.tail_matches
    mediamanager.Copyfile.stream mediamanager.Files.check_context mediamanager.Files.write_at
    mediamanager.Copyfile.finish mediamanager.Copyfile.verify mediamanager.Copyfile.rename
    mediamanager.Copyfile.tail_bytes mediamanager.Copyfile.truncate mediamanager.Files.call
    mediamanager.Files.change_file mediamanager.Files.written mediamanager.Identity.be64
    mediamanager.Identity.full mediamanager.Identity.hex mediamanager.Identity.hex_digit
resumed_test = refl

copy_outcome_example :
    Post
      (Delivered same_bytes before.files (codes "/spool/c.mov") clip)
      (λ e. Kept before.files (codes "/spool/c.mov" ++ partial_suffix))
      (copy same_bytes (codes "/card/c.mov") (codes "/spool/c.mov") plain before).0
      (copy same_bytes (codes "/card/c.mov") (codes "/spool/c.mov") plain before).1
copy_outcome_example =
    copy_outcome same_bytes (codes "/card/c.mov") (codes "/spool/c.mov") plain before clip apart
      there

stream_full_example :
    Ran
      (1 ∷ 2 ∷ 3 ∷ [])
      (codes "/spool/c.mov.partial")
      2
      (omega arith)
      before.files
      (record clip { content = 1 ∷ [] })
      ([] ++ drop 1 (1 ∷ 2 ∷ 3 ∷ []))
      (stream (1 ∷ 2 ∷ 3 ∷ []) (codes "/spool/c.mov.partial") 2 2 1 [] (calm before.files))
unfolding text_eq
stream_full_example =
    stream_full (1 ∷ 2 ∷ 3 ∷ []) (codes "/spool/c.mov.partial") 2 (omega arith) 2 before.files
      (record clip { content = 1 ∷ [] }) 1 [] refl refl (omega arith)

clip_id : sparse same_bytes clip.content (length clip.content) ≡ ok (codes "0000000000000003")
unfolding mediamanager.Identity.sparse mediamanager.Identity.message mediamanager.Identity.chunk
    mediamanager.Identity.hash_range mediamanager.Identity.hex mediamanager.Identity.be64
clip_id = refl

no_dst : before.files (codes "/spool/d.mov") ≡ none
unfolding text_eq
no_dst = refl

no_partial_there : before.files (codes "/spool/d.mov" ++ partial_suffix) ≡ none
unfolding text_eq
no_partial_there = refl

copy_fresh_example :
    Copies same_bytes before.files
      (codes "/spool/d.mov")
      (codes "0000000000000003")
      clip
      (copy same_bytes (codes "/card/c.mov") (codes "/spool/d.mov") plain (calm before.files))
copy_fresh_example =
    copy_fresh same_bytes before.files (codes "/card/c.mov") (codes "/spool/d.mov")
      (codes "0000000000000003") plain clip there no_dst no_partial_there clip_id (inl refl)
