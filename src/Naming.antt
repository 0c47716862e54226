-- ===== src/Naming.antt =====
-- naming/naming.go: permanent names from an original's metadata.
pub mod Split
mod Safe
mod RoundTrip
mod Tests
use mediamanager.Base.{
  ℕ, Bool, ◌&&◌, ◌||◌, not, Option, none, some, [], ◌∷◌, ◌++◌, map, reverse, leb, if◌then◌else◌,
  length, Text, codes, lower, split_last, ◌==◌, ℕ_eq, Text_eq, Result, ok, err, ◌>>=◌,
}
use mediamanager.Media.{Kind, Kind_eq, uses_sparse_id}
use mediamanager.Clock.{Time, is_zero, before}
use mediamanager.Identity
use mediamanager.SlashPath.{dot, split, join, decimal, padded}

-- ProxyDir
abbrev pub proxy_dir : Text
proxy_dir = codes "Proxy"

pub record Asset : Type 0 where
  pub kind : Kind
  pub orig_name : Text
  pub id : Text
  pub capture_time : Time

pub data Error : Type 0 where
  empty_name no_capture_time invalid_id empty_project : Error

-- splitExt
unfoldable pub split_ext : Text → Text × Text
split_ext name = elim (split_last dot name) [
  | none ↦ (name, [])
  | some ([], after) ↦ (name, [])
  | some (c ∷ before, after) ↦ (c ∷ before, after)
]

-- join
unfoldable pub join_ext : Text → Text → Text
join_ext b [] = b
join_ext b (c ∷ e) = b ++ (dot ∷ c ∷ e)

unfoldable pub is_safe : ℕ → Bool
is_safe c =
    (leb b'a' c && leb c b'z') || (leb b'0' c && leb c b'9') || c == dot || c == b'_' || c == b'-'

unfoldable pub safe_char : ℕ → ℕ
unfolding is_safe
safe_char c = if is_safe c then c else b'_'

-- Sanitize
unfoldable pub sanitize : Text → Text
unfolding safe_char lower
sanitize s = map safe_char (lower s)

-- Parsed
pub record Parsed : Type 0 where
  pub base : Text
  pub id : Text
  pub ext : Text

-- Parse, once the extension is off.
unfoldable pub parse_base : Text → Text → Option Parsed
parse_base b e = elim (split_last b'-' b) [
  | none ↦ none
  | some ([], id) ↦ none
  | some (c ∷ before, id) ↦
      if not (length id == Identity.id_len)
      then none
      else if not (Identity.valid id)
      then none
      else some (record { base = c ∷ before; id = id; ext = e })
]

-- Parse
unfoldable pub parse : Text → Option Parsed
parse name = parse_base (split_ext name).0 (split_ext name).1

-- The base that FileName suffixes: `file` for an empty one.
unfoldable pub name_base : Text → Text
name_base b = if b == [] then codes "file" else b

-- A source name that already carries this very identity is not suffixed again.
unfoldable pub strip_id : Text → Text → Text → Text
strip_id id b e = elim (parse (join_ext b e)) [
  | none ↦ b
  | some p ↦ if p.id == id then p.base else b
]

-- FileName
unfoldable pub file_name : Asset → Result Error Text
unfolding is_zero uses_sparse_id
file_name a =
    if a.orig_name == []
    then err empty_name
    else if is_zero a.capture_time
    then err no_capture_time
    else let b = name_base (sanitize (split_ext a.orig_name).0) in
      let e = sanitize (split_ext a.orig_name).1 in
      if not (uses_sparse_id a.kind)
      then ok (join_ext b e)
      else if not (Identity.valid a.id)
      then err invalid_id
      else ok (join_ext (strip_id a.id b e ++ (b'-' ∷ a.id)) e)

-- DateScheme.Path
unfoldable pub date_path : Asset → Result Error Text
unfolding join padded
date_path a = do
  name ← file_name a
  let t = a.capture_time
  ok (join (padded 4 t.year ∷ padded 2 t.month ∷ padded 2 t.day ∷ name ∷ []))

-- unicode.IsSpace
unfoldable pub is_space : ℕ → Bool
is_space c =
    (leb 9 c && leb c 13)
    || c == 32
    || c == 0x85
    || c == 0xa0
    || c == 0x1680
    || (leb 0x2000 c && leb c 0x200a)
    || c == 0x2028
    || c == 0x2029
    || c == 0x202f
    || c == 0x205f
    || c == 0x3000

unfoldable pub trim_left : Text → Text
unfolding is_space
trim_left [] = []
trim_left (c ∷ s) = if is_space c then trim_left s else c ∷ s

-- strings.TrimSpace
unfoldable pub trim_space : Text → Text
unfolding trim_left
trim_space s = reverse (trim_left (reverse (trim_left s)))

-- ProjectScheme.Path
unfoldable pub project_path : Text → Asset → Result Error Text
unfolding join padded trim_space
project_path project a = do
  name ← file_name a
  let proj = sanitize (map (λ c. if c == 32 then b'-' else c) (trim_space project))
  let t = a.capture_time
  let date = padded 4 t.year ++ padded 2 t.month ++ padded 2 t.day
  (if proj == []
      then err empty_project
      else ok (join (padded 4 t.year ∷ (date ++ (b'-' ∷ proj)) ∷ name ∷ [])))

-- ProxyPath
unfoldable pub proxy_path : Text → Text → Text
unfolding split split_ext join_ext sanitize join
proxy_path rel e =
    let (d, name) = split rel in
    join (d ∷ proxy_dir ∷ join_ext (split_ext name).0 (sanitize e) ∷ [])

-- SidecarPath
unfoldable pub sidecar_path : Text → Text → Text
unfolding split split_ext join_ext sanitize join
sidecar_path rel e =
    let (d, name) = split rel in
    let e' = sanitize e in
    if e' == codes "phos"
    then join (d ∷ (name ++ (dot ∷ e')) ∷ [])
    else join (d ∷ join_ext (split_ext name).0 e' ∷ [])

-- ProxySidecarPath
unfoldable pub proxy_sidecar_path : Text → Text → Text
unfolding proxy_path
proxy_sidecar_path rel e = proxy_path rel e

-- WithSuffix
unfoldable pub with_suffix : Text → ℕ → Text
unfolding split split_ext join_ext join decimal
with_suffix rel n =
    let (d, name) = split rel in
    let (b, e) = split_ext name in join (d ∷ join_ext (b ++ (b'_' ∷ decimal n)) e ∷ [])
