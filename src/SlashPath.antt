-- ===== src/SlashPath.antt =====
-- Go's package `path` on slash-separated paths, as far as the program calls it, and the decimal
-- and calendar formats that paths are made of. Language library, not code of the repository.
use mediamanager.Base.{
  ℕ, zero, suc, ◌+◌, ◌-◌, ◌/◌, ◌%◌, Bool, false, none, some, List, [], ◌∷◌, ◌++◌, reverse, ltb,
  if◌then◌else◌, length, Text, codes, split_last, ◌==◌, ℕ_eq, Text_eq,
}

abbrev pub slash : ℕ
slash = b'/'

abbrev pub dot : ℕ
dot = b'.'

-- path.Split
unfoldable pub split : Text → Text × Text
split p = elim (split_last slash p) [
  | none ↦ ([], p)
  | some (before, after) ↦ (before ++ slash ∷ [], after)
]

-- The elements between slashes.
unfoldable pub elements : Text → List Text
elements [] = [] ∷ []
elements (c ∷ p) = elim (elements p) [
  | [] ↦ [] ∷ []
  | e ∷ es ↦ if c == slash then [] ∷ e ∷ es else (c ∷ e) ∷ es
]

unfoldable pub intercalate : List Text → Text
intercalate [] = []
intercalate (e ∷ []) = e
intercalate (e ∷ f ∷ es) = e ++ (slash ∷ intercalate (f ∷ es))

-- One element of a path onto the elements kept so far, the last first.
unfoldable pub clean_step : Bool → List Text → Text → List Text
clean_step rooted out e =
    if e == []
    then out
    else if e == codes "."
    then out
    else if e == codes ".."
    then elim out [
      | [] ↦ if rooted then [] else codes ".." ∷ []
      | t ∷ rest ↦ if t == codes ".." then codes ".." ∷ t ∷ rest else rest
    ]
    else e ∷ out

unfoldable pub clean_all : Bool → List Text → List Text → List Text
clean_all rooted out [] = out
clean_all rooted out (e ∷ es) = clean_all rooted (clean_step rooted out e) es

-- filepath.IsAbs
unfoldable pub is_abs : Text → Bool
is_abs [] = false
is_abs (c ∷ p) = c == slash

-- path.Clean
unfoldable pub clean : Text → Text
unfolding clean_all clean_step elements intercalate is_abs
clean p =
    let body = intercalate (reverse (clean_all (is_abs p) [] (elements p))) in
    if is_abs p then slash ∷ body else if body == [] then codes "." else body

unfoldable pub skip_empty : List Text → List Text
skip_empty [] = []
skip_empty ([] ∷ es) = skip_empty es
skip_empty (e ∷ es) = e ∷ es

-- path.Join
unfoldable pub join : List Text → Text
unfolding skip_empty clean
join es = elim (skip_empty es) [ [] ↦ [] | f ∷ fs ↦ clean (intercalate (f ∷ fs)) ]

unfoldable pub strip_slashes : Text → Text
strip_slashes [] = []
strip_slashes (c ∷ p) = if c == slash then strip_slashes p else c ∷ p

-- path.Base
unfoldable pub base : Text → Text
unfolding split strip_slashes
base p =
    if p == []
    then codes "."
    else let q = reverse (strip_slashes (reverse p)) in if q == [] then codes "/" else (split q).1

-- path.Dir
unfoldable pub dir : Text → Text
unfolding split clean
dir p = clean (split p).0

-- path.Ext
unfoldable pub ext : Text → Text
unfolding split
ext p = elim (split_last dot (split p).1) [ none ↦ [] | some (b, e) ↦ dot ∷ e ]

-- The decimal digits of a number; the fuel `suc n` is enough, each round divides by ten.
unfoldable pub decimal_fuel : ℕ → ℕ → Text → Text
decimal_fuel zero n acc = acc
decimal_fuel (suc f) n acc =
    let rest = decimal_fuel f (n / 10) ((48 + n % 10) ∷ acc) in
    if ltb n 10 then (48 + n) ∷ acc else rest

-- %d
unfoldable pub decimal : ℕ → Text
unfolding decimal_fuel
decimal n = decimal_fuel (suc n) n []

unfoldable pub zeros : ℕ → Text
zeros zero = []
zeros (suc n) = 48 ∷ zeros n

-- %0wd
unfoldable pub padded : ℕ → ℕ → Text
unfolding zeros decimal
padded w n = zeros (w - length (decimal n)) ++ decimal n
