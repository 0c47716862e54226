-- ===== src/Scan/Mp4/Tests.antt =====
-- A movie file of two boxes, and one whose second box claims a size that wraps.
use mediamanager.Base.{
  ℕ, ◌+◌, ◌-◌, ◌^◌, ◌≡◌, refl, Option, none, some, [], ◌∷◌, ◌++◌, leb, if◌then◌else◌, length, take,
  drop, codes, text_eq, ℕ_eq, Text_eq, Pair_eq, ok,
}
use mediamanager.Base.Int.{pos, negsuc, ℤ_eq}
use mediamanager.Identity.{Bytes}
use mediamanager.Scan.Mp4.{find_within}
use mediamanager.Scan.Mp4.Bounds.{InBounds, find_within-InBounds}

abbrev reader : Bytes → ℕ → ℕ → Option Bytes
reader bs off n = if leb (off + n) (length bs) then some (take n (drop off bs)) else none

abbrev free_box : Bytes
free_box = 0 ∷ 0 ∷ 0 ∷ 8 ∷ codes "free"

abbrev movie : Bytes
movie = free_box ++ (0 ∷ 0 ∷ 0 ∷ 10 ∷ codes "moov" ++ (1 ∷ 2 ∷ []))

abbrev endless : Bytes
endless =
    free_box
    ++ (0 ∷ 0 ∷ 0 ∷ 1 ∷ codes "moov" ++ (127 ∷ 255 ∷ 255 ∷ 255 ∷ 255 ∷ 255 ∷ 255 ∷ 255 ∷ []))

finds_payload : find_within (reader movie) (codes "moov") (0, pos 18) ≡ ok (16, pos 18)
unfolding find_within mediamanager.Base.text_eq
finds_payload = refl

accepts_wrapped :
    find_within (reader endless) (codes "moov") (0, pos 24) ≡ ok (24, negsuc (2 ^ 63 - 8))
unfolding find_within mediamanager.Base.text_eq
accepts_wrapped = refl

find_within-InBounds_example :
    InBounds
      (reader movie)
      (codes "moov")
      0
      18
      (find_within (reader movie) (codes "moov") (0, pos 18))
find_within-InBounds_example = find_within-InBounds (reader movie) (codes "moov") 0 18
