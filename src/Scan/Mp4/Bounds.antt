-- ===== src/Scan/Mp4/Bounds.antt =====
-- findAtom of scan/mp4.go: where the payload of a box lies.
use mediamanager.Base.{
  ℕ, zero, suc, ◌+◌, ◌-◌, ◌≤◌, ◌<◌, ◌≡◌, refl, ap, ◌≢◌, inl, inr, Bool, true, false, ◌&&◌, ◌||◌,
  not, Option, none, some, [], ◌∷◌, arith, ltb, if◌then◌else◌, Bool-cases, take, drop, Text,
  text_eq_iff, ℕ_eq, Text_eq, Pair_eq, ◌==◌, Result, err, ok,
}
use mediamanager.Base.Int.{ℤ, pos, negsuc, ℤ_eq}
use mediamanager.Identity.{Bytes}
use mediamanager.Scan.Mp4.{
  AtomError, no_mvhd, read_error, unfinished, Round, found, fails, next, number, wraps, int64,
  judged, long_size, with_header, round, find_atom, find_within,
}

-- A box from `off` on whose payload starts at `a`: after a header of 8 bytes, or of 16 where the
-- first four bytes are the number 1.
pub record Box (read : ℕ → ℕ → Option Bytes) (typ : Text) (off end a : ℕ) : Type 0 where
  pub box : ℕ
  pub from : off ≤ box
  pub fits : box + 8 ≤ end
  pub header : Bytes
  pub at_box : read box 8 ≡ some header
  pub typed : drop 4 header ≡ typ
  pub long : take 4 header ≡ 0 ∷ 0 ∷ 0 ∷ 1 ∷ [] → a ≡ box + 16
  pub short : number 0 (take 4 header) ≢ 1 → a ≡ box + 8

-- The payload of a box is within the bounds, unless its end has wrapped.
abbrev pub InBounds : (ℕ → ℕ → Option Bytes) → Text → ℕ → ℕ → Result AtomError (ℕ × ℤ) → Type 0
InBounds read typ off end (ok (a, pos b)) = Box read typ off end a × (a ≤ b) × (b ≤ end)
InBounds read typ off end (ok (a, negsuc n)) = Box read typ off end a
InBounds read typ off end (err unfinished) = ⊥
InBounds read typ off end (err e) = Unit

module _ (read : ℕ → ℕ → Option Bytes) (typ : Text) where
  abbrev GoesOn : ℕ → ℕ → Round → Type 0
  GoesOn off end (found a b) = InBounds read typ off end (ok (a, b))
  GoesOn off end (fails unfinished) = ⊥
  GoesOn off end (fails e) = Unit
  GoesOn off end (next o) = (off < o) × (o ≤ end)

  -- The rest of the round, once the size has been accepted.
  judged_rest :
      (off end : ℕ) (is_typ : Bool) (hlen size : ℕ)
      → (is_typ ≡ true → Box read typ off end (off + hlen))
      → 8 ≤ hlen
      → hlen ≤ size
      → (wraps (off + size) ≡ false → off + size ≤ end)
      → GoesOn off end (
          if is_typ
          then found (off + hlen) (int64 (off + size))
          else if wraps (off + size)
          then fails read_error
          else next (off + size))
  unfolding int64
  judged_rest off end true hlen size x h l k = elim (Bool-cases (wraps (off + size))) [
    | inl b ↦ rw b (x refl)
    | inr b ↦ rw b (x refl, omega arith, k b)
  ]
  judged_rest off end false hlen size x h l k = elim (Bool-cases (wraps (off + size))) [
    | inl b ↦ rw b tt
    | inr b ↦ rw b (omega arith, k b)
  ]

  judged-GoesOn :
      (off end : ℕ) (is_typ : Bool) (hlen size : ℕ)
      → (is_typ ≡ true → Box read typ off end (off + hlen))
      → 8 ≤ hlen
      → GoesOn off end (judged off end is_typ hlen size)
  unfolding judged int64
  judged-GoesOn off end is_typ hlen size x h =
      elim (Bool-cases
        (wraps size || ltb size hlen || (not (wraps (off + size)) && ltb end (off + size)))) [
          | inl b ↦ rw b tt
          | inr b ↦
              rw b
                (judged_rest off end is_typ hlen size x h (ground (arith, b)) (ground (arith, b)))
        ]

  long_size-GoesOn :
      (off end : ℕ) (is_typ : Bool) (o : Option Bytes)
      → (is_typ ≡ true → Box read typ off end (off + 16))
      → GoesOn off end (long_size off end is_typ o)
  unfolding number
  long_size-GoesOn off end is_typ none x = tt
  long_size-GoesOn off end is_typ (some more) x =
      judged-GoesOn off end is_typ 16 (number 0 more) x (omega arith)

  -- The box that a round has read the header of.
  read_here :
      (off end hlen : ℕ) (hdr : Bytes)
      → off + 8 ≤ end
      → read off 8 ≡ some hdr
      → (number 0 (take 4 hdr) ≡ 1 → hlen ≡ 16)
      → (number 0 (take 4 hdr) ≢ 1 → hlen ≡ 8)
      → (drop 4 hdr == typ) ≡ true
      → Box read typ off end (off + hlen)
  unfolding number
  read_here off end hlen hdr f r l n t = record {
    box = off;
    from = omega arith;
    fits = f;
    header = hdr;
    at_box = r;
    typed = (text_eq_iff (drop 4 hdr) typ).0 t;
    long = λ e. ap (λ k. off + k) (l (ap (number 0) e));
    short = λ e. ap (λ k. off + k) (n e);
  }

  with_header-GoesOn :
      (end off : ℕ) (o : Option Bytes)
      → off + 8 ≤ end
      → read off 8 ≡ o
      → GoesOn off end (with_header read off end typ o)
  with_header-GoesOn end off none f r = tt
  with_header-GoesOn end off (some hdr) f r = elim (Bool-cases (number 0 (take 4 hdr) == 0)) [
    | inl b ↦ rw b (
        judged-GoesOn off end (drop 4 hdr == typ) 8 (end - off)
          (read_here off end 8 hdr f r (λ e. absurd (ground (arith, b, e))) (λ e. refl))
          (omega arith))
    | inr b ↦ elim (Bool-cases (number 0 (take 4 hdr) == 1)) [
      | inl c ↦ rw b (
          rw c (
            long_size-GoesOn off end (drop 4 hdr == typ) (read (off + 8) 8)
              (read_here off end 16 hdr f r (λ e. refl) (λ e. absurd (ground (arith, c, e))))))
      | inr c ↦ rw b (
          rw c (
            judged-GoesOn off end (drop 4 hdr == typ) 8 (number 0 (take 4 hdr))
              (read_here off end 8 hdr f r (λ e. absurd (ground (arith, c, e))) (λ e. refl))
              (omega arith)))
    ]
  ]

  round-GoesOn : (end off : ℕ) → GoesOn off end (round read typ end off)
  unfolding round
  round-GoesOn end off = elim (Bool-cases (ltb end (off + 8))) [
    | inl b ↦ rw b tt
    | inr b ↦ rw b (with_header-GoesOn end off (read off 8) (ground (arith, b)) refl)
  ]

  Box-later : (off o end a : ℕ) → off < o → Box read typ o end a → Box read typ off end a
  Box-later off o end a l x = record {
    box = x.box;
    from = omega (arith, l, x.from);
    fits = x.fits;
    header = x.header;
    at_box = x.at_box;
    typed = x.typed;
    long = x.long;
    short = x.short;
  }

  InBounds-later :
      (off o end : ℕ) (r : Result AtomError (ℕ × ℤ))
      → off < o
      → InBounds read typ o end r
      → InBounds read typ off end r
  InBounds-later off o end (ok (a, pos b)) l h = (Box-later off o end a l h.0, h.1, h.2)
  InBounds-later off o end (ok (a, negsuc n)) l h = Box-later off o end a l h
  InBounds-later off o end (err no_mvhd) l h = tt
  InBounds-later off o end (err read_error) l h = tt
  InBounds-later off o end (err unfinished) l h = h

  follows :
      (end fuel off : ℕ)
      → ((o : ℕ) → off < o → o ≤ end → InBounds read typ o end (find_atom read typ end fuel o))
      → (r : Round) → GoesOn off end r
      → InBounds read typ off end (elim r [
        | found a b ↦ ok (a, b)
        | fails e ↦ err e
        | next off' ↦ find_atom read typ end fuel off'
      ])
  follows end fuel off k (found a b) h = h
  follows end fuel off k (fails no_mvhd) h = tt
  follows end fuel off k (fails read_error) h = tt
  follows end fuel off k (fails unfinished) h = h
  follows end fuel off k (next o) h = InBounds-later off o end _ h.0 (k o h.0 h.1)

  find_atom-InBounds :
      (end fuel off : ℕ)
      → 1 ≤ fuel
      → end < off + fuel
      → InBounds read typ off end (find_atom read typ end fuel off)
  unfolding find_atom
  find_atom-InBounds end zero off l h = absurd (omega arith)
  find_atom-InBounds end (suc fuel) off l h =
      follows end fuel off (λ o m n. find_atom-InBounds end fuel o (omega arith) (omega arith))
        (round read typ end off) (round-GoesOn end off)

-- The walk over the boxes of a movie file ends, whatever the file has, within as many boxes as
-- there are bytes. A payload that it finds is that of a box of the asked type whose first 8
-- bytes lie within the bounds: it starts 16 bytes into the box where the size field is 1, and 8
-- bytes into it otherwise, and it lies within the bounds, unless its end has wrapped past 2^63.
pub find_within-InBounds :
    (read : ℕ → ℕ → Option Bytes) (typ : Text) (start end : ℕ)
    → InBounds read typ start end (find_within read typ (start, pos end))
unfolding find_within
find_within-InBounds read typ start end =
    find_atom-InBounds read typ end (suc end) start (omega arith) (omega arith)
