-- ===== src/Scan/Tests.antt =====
-- Scans at concrete trees, and the theorems on the package scan applied to them.
use mediamanager.Base.{
  ◌≡◌, refl, inl, inr, true, false, List, [], ◌∷◌, ◌++◌, arith, Text, codes, text_eq, text_ltb,
  has_prefix, has_suffix, trim_prefix, contains, to_lower, lower, split_last, ℕ_eq, Text_eq,
  Pair_eq, ok,
}
use mediamanager.Clock.{zero_time}
use mediamanager.Media.{Kind, video, audio, still, kind_eq, Kind_eq}
use mediamanager.SlashPath
use mediamanager.Scan.{
  flat, is_sidecar_ext, base, folds_to, role_of, is_junk, norm_ext, enter, enter_all,
  new_classifier, kind_of, classify,
}
use mediamanager.Scan.Classes.{has_ext, Only, classify-Only, new_classifier-last}
use mediamanager.Scan.Walk.{
  regular, directory, Entries, nil, entry, Found, foreign, file_of, visit, walk, dcim_dir,
  detect_shape, start_of, scan,
}
use mediamanager.Scan.Recognised.{Recognised, scan-Recognised}

abbrev lists : List (Kind × List Text)
lists = (video, codes ".MOV" ∷ []) ∷ (audio, codes "wav" ∷ []) ∷ []

not_audio : has_ext (codes "mov") (codes "wav" ∷ []) ≡ false
unfolding text_eq norm_ext lower trim_prefix
not_audio = refl

video-Only : Only video (codes "mov") lists
video-Only l (inl e) h = ground (arith, e)
video-Only l (inr (inl e)) h = ground (arith, e, not_audio)
video-Only l (inr (inr m)) h = absurd m

classify-Only_example :
    classify (new_classifier lists) (codes "c" ++ (46 ∷ codes "Mov")) ≡ (video, lower (codes "Mov"))
unfolding lower mediamanager.Base.text_eq mediamanager.Scan.norm_ext mediamanager.Base.trim_prefix
    mediamanager.Base.contains
classify-Only_example =
    classify-Only lists video (codes ".MOV" ∷ []) (codes "c") (codes "Mov") (λ e. ground arith)
      (λ e. ground arith) video-Only (inl refl) refl refl

listed_last : has_ext (codes "mov") (codes "mov" ∷ []) ≡ true
unfolding mediamanager.Base.text_eq mediamanager.Scan.norm_ext lower mediamanager.Base.trim_prefix
listed_last = refl

new_classifier-last_example :
    kind_of (new_classifier (lists ++ ((still, codes "mov" ∷ []) ∷ []))).by_ext (codes "mov")
    ≡ still
new_classifier-last_example =
    new_classifier-last lists still (codes "mov" ∷ []) (codes "mov") listed_last

-- A card with a clip, its proxy, junk and a text file.
abbrev card : Entries
card = entry (codes "._c.mov") (regular 9 zero_time) (
    entry (codes "Proxy") (directory (entry (codes "c.mov") (regular 2 zero_time) nil)) (
      entry (codes "c.mov") (regular 7 zero_time)
        (entry (codes "readme.txt") (regular 1 zero_time) nil)))

abbrev found : Found
found = record {
  files =
      file_of (new_classifier lists) (codes "/card") (codes "Proxy/c.mov") 2 zero_time
      ∷ file_of (new_classifier lists) (codes "/card") (codes "c.mov") 7 zero_time
      ∷ [];
  unrecognised = codes "readme.txt" ∷ [];
}

card_scanned : scan (codes "/card") (new_classifier lists) card ≡ ok (flat, found)
unfolding scan mediamanager.Scan.Walk.start_of mediamanager.Scan.folds_to text_eq lower
    mediamanager.Scan.is_junk mediamanager.Base.has_prefix mediamanager.Base.has_suffix
    mediamanager.Scan.role_of classify mediamanager.Base.split_last SlashPath.base SlashPath.dir
    mediamanager.Media.kind_eq new_classifier trim_prefix mediamanager.Base.Sorting.sort
    mediamanager.Base.text_ltb mediamanager.Base.to_lower mediamanager.Base.Sorting.insert
    mediamanager.Scan.Walk.dcim_dir mediamanager.Scan.Walk.detect_shape
    mediamanager.Scan.Walk.foreign mediamanager.Scan.Walk.visit mediamanager.Scan.Walk.walk
    mediamanager.Scan.enter mediamanager.Scan.enter_all mediamanager.Scan.is_sidecar_ext kind_of
    norm_ext SlashPath.clean SlashPath.clean_all SlashPath.clean_step SlashPath.elements
    SlashPath.intercalate SlashPath.is_abs SlashPath.join SlashPath.skip_empty SlashPath.split
    SlashPath.strip_slashes
card_scanned = refl

scan-Recognised_example :
    Recognised
      (new_classifier lists)
      (file_of (new_classifier lists) (codes "/card") (codes "c.mov") 7 zero_time)
scan-Recognised_example =
    scan-Recognised (codes "/card") (new_classifier lists) card flat found card_scanned
      (file_of (new_classifier lists) (codes "/card") (codes "c.mov") 7 zero_time) (inr (inl refl))
