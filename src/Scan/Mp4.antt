-- ===== src/Scan/Mp4.antt =====
-- scan/mp4.go: the walk over the atoms of a movie file. `read off n` is ReadAt of n bytes at an offset
-- that is not negative; at a negative one it fails. Offsets are below 2^63 - 8, and the sum of an offset
-- and a size wraps to a negative one from 2^63 on.
pub mod Bounds
mod Tests
use mediamanager.Base.{
  ℕ, zero, suc, ◌+◌, ◌-◌, ◌*◌, ◌^◌, Bool, ◌&&◌, ◌||◌, not, Option, none, some, [], ◌∷◌, ltb, leb,
  if◌then◌else◌, take, drop, Text, codes, ℕ_eq, Text_eq, Pair_eq, ◌==◌, Result, err, ok, ◌>>=◌,
}
use mediamanager.Base.Int.{ℤ, pos, negsuc, ℤ_eq}
use mediamanager.Identity.{Bytes}

pub data AtomError : Type 0 where
  -- errNoMVHD
  no_mvhd : AtomError
  read_error : AtomError
  -- no more fuel
  unfinished : AtomError

-- What one round of the loop of findAtom comes to.
pub data Round : Type 0 where
  found : ℕ → ℤ → Round
  fails : AtomError → Round
  next : ℕ → Round

-- The number that the bytes are, the first one highest.
unfoldable pub number : ℕ → Bytes → ℕ
number acc [] = acc
number acc (b ∷ bs) = number (acc * 256 + b) bs

abbrev pub wraps : ℕ → Bool
wraps n = leb (2 ^ 63) n

-- A 64-bit number as an int64.
unfoldable pub int64 : ℕ → ℤ
int64 n = if wraps n then negsuc (2 ^ 64 - suc n) else pos n

-- The end of a round, with the size of the box and the length of its header.
unfoldable pub judged : ℕ → ℕ → Bool → ℕ → ℕ → Round
unfolding int64
judged off end is_typ hlen size =
    if wraps size || ltb size hlen || (not (wraps (off + size)) && ltb end (off + size))
    then fails no_mvhd
    else if is_typ
    then found (off + hlen) (int64 (off + size))
    else if wraps (off + size)
    then fails read_error
    else next (off + size)

abbrev pub long_size : ℕ → ℕ → Bool → Option Bytes → Round
long_size off end is_typ none = fails read_error
long_size off end is_typ (some more) = judged off end is_typ 16 (number 0 more)

abbrev pub with_header : (ℕ → ℕ → Option Bytes) → ℕ → ℕ → Text → Option Bytes → Round
with_header read off end typ none = fails read_error
with_header read off end typ (some hdr) =
    let size = number 0 (take 4 hdr) in
    let is_typ = drop 4 hdr == typ in
    if size == 0
    then judged off end is_typ 8 (end - off)
    else if size == 1
    then long_size off end is_typ (read (off + 8) 8)
    else judged off end is_typ 8 size

-- One round of the loop of findAtom.
unfoldable pub round : (ℕ → ℕ → Option Bytes) → Text → ℕ → ℕ → Round
unfolding number judged
round read typ end off =
    if ltb end (off + 8) then fails no_mvhd else with_header read off end typ (read off 8)

-- findAtom; `fuel` counts boxes.
unfoldable pub find_atom : (ℕ → ℕ → Option Bytes) → Text → ℕ → ℕ → ℕ → Result AtomError (ℕ × ℤ)
unfolding round
find_atom read typ end zero off = err unfinished
find_atom read typ end (suc fuel) off = elim (round read typ end off) [
  | found a b ↦ ok (a, b)
  | fails e ↦ err e
  | next off' ↦ find_atom read typ end fuel off'
]

-- findAtom between bounds of which the last may be negative; every box but the last has eight bytes.
unfoldable pub find_within : (ℕ → ℕ → Option Bytes) → Text → ℕ × ℤ → Result AtomError (ℕ × ℤ)
unfolding find_atom
find_within read typ (start, pos end) = find_atom read typ end (suc end) start
find_within read typ (start, negsuc n) = err no_mvhd

-- The length of the payload, as an int64 that wraps back where its end has wrapped.
unfoldable pub payload_length : ℕ × ℤ → ℕ
payload_length (off, pos end) = end - off
payload_length (off, negsuc n) = 2 ^ 64 - suc n - off

abbrev pub header_length : ℕ → ℕ
header_length n = if ltb n 20 then n else 20

-- The seconds in the first n bytes of a movie header.
unfoldable pub seconds_in : ℕ → Bytes → Result AtomError ℕ
unfolding number
seconds_in n [] = err no_mvhd
seconds_in n (v ∷ bs) =
    if v == 0
    then ok (number 0 (take 4 (drop 3 bs)))
    else if v == 1
    then (if ltb n 12 then err no_mvhd else ok (number 0 (take 8 (drop 3 bs))))
    else err no_mvhd

abbrev pub header_at : ℕ → Option Bytes → Result AtomError ℕ
header_at n none = err read_error
header_at n (some hdr) = seconds_in n hdr

-- mp4CreationTime, up to the seconds since 1904 that it finds.
unfoldable pub movie_seconds : (ℕ → ℕ → Option Bytes) → ℕ → Result AtomError ℕ
unfolding find_within payload_length seconds_in
movie_seconds read size = find_within read (codes "moov") (0, pos size) >>= λ moov.
    find_within read (codes "mvhd") moov >>= λ (p : ℕ × ℤ).
    let n = header_length (payload_length p) in
    (if ltb n 8 then err no_mvhd else header_at n (read p.0 n)) >>= λ secs.
    if secs == 0 then err no_mvhd else ok secs
