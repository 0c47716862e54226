-- ===== src/Scan/Walk.antt =====
-- scan/scan.go, the walk: which files of a directory tree Scan reports. A directory's entries stand
-- in the order filepath.WalkDir visits them. The names are without a slash.
use mediamanager.Base.Sorting.{sort}
use mediamanager.Base.{
  ℕ, Bool, false, Option, none, some, List, [], ◌∷◌, ◌++◌, if◌then◌else◌, Text, codes, text_ltb,
  ◌==◌, ℕ_eq, Text_eq, Pair_eq, Result, ok, err, ◌>>=◌,
}
use mediamanager.Clock.{Time, zero_time}
use mediamanager.Media.{Kind, unknown, Kind_eq}
use mediamanager.SlashPath
use mediamanager.Scan.{
  Shape, flat, dcim, Role, original, proxy, sidecar, proxy_sidecar, File, folds_to, role_of,
  is_junk, Classifier, classify,
}

mutual
  -- What a name of a directory stands for. A directory that cannot be read, and a file whose
  -- Info fails, are entries of their own; `special` is a symlink, a device and the like.
  pub data Node : Type 0 where
    regular : ℕ → Time → Node
    no_info special unreadable : Node
    directory : Entries → Node

  pub data Entries : Type 0 where
    nil : Entries
    entry : Text → Node → Entries → Entries

pub data Error : Type 0 where
  read_error : Error

-- Result: what Scan found, without its shape.
pub record Found : Type 0 where
  pub files : List File
  pub unrecognised : List Text

-- A file that is no media and no companion.
unfoldable pub foreign : Kind → Role → Bool
foreign kind original = kind == unknown
foreign kind proxy = false
foreign kind sidecar = false
foreign kind proxy_sidecar = false

abbrev pub file_of : Classifier → Text → Text → ℕ → Time → File
file_of c root rel size mod_time = record {
  rel = rel;
  abs = SlashPath.join (root ∷ rel ∷ []);
  kind = (classify c (SlashPath.base rel)).0;
  ext = (classify c (SlashPath.base rel)).1;
  size = size;
  mod_time = mod_time;
  role = role_of rel (classify c (SlashPath.base rel)).0 (classify c (SlashPath.base rel)).1;
}

-- The end of the callback for a regular file.
unfoldable pub visit : Classifier → Text → Text → Node → Found → Result Error Found
unfolding foreign
visit c root rel node found =
    let file = file_of c root rel 0 zero_time in
    if foreign file.kind file.role
    then ok (record found { unrecognised = found.unrecognised ++ (rel ∷ []) })
    else elim node [
      | regular size mod_time ↦
          ok (record found { files = found.files ++ (file_of c root rel size mod_time ∷ []) })
      | other ↦ err read_error
    ]

-- rel of a name in a directory, whose own rel is empty for the root
abbrev pub child : Text → Text → Text
child [] n = n
child dir n = dir ++ (47 ∷ n)

unfoldable mutual
  unfolding visit

  pub walk : Classifier → Text → Text → Entries → Found → Result Error Found
  walk c root dir nil found = ok found
  walk c root dir (entry n node rest) found =
      if is_junk n
      then walk c root dir rest found
      else (walk_node c root (child dir n) node found) >>= λ more. walk c root dir rest more

  pub walk_node : Classifier → Text → Text → Node → Found → Result Error Found
  walk_node c root rel unreadable found = err read_error
  walk_node c root rel special found = ok found
  walk_node c root rel (directory es) found = walk c root rel es found
  walk_node c root rel no_info found = visit c root rel no_info found
  walk_node c root rel (regular size t) found = visit c root rel (regular size t) found

-- dcimDir: the first directory whose name folds to dcim.
unfoldable pub dcim_dir : Entries → Option (Text × Entries)
dcim_dir nil = none
dcim_dir (entry n node rest) = elim node [
  | directory es ↦ if folds_to n (codes "dcim") then some (n, es) else dcim_dir rest
  | other ↦ dcim_dir rest
]

-- DetectShape
unfoldable pub detect_shape : Entries → Shape
detect_shape es = elim (dcim_dir es) [ none ↦ flat | some d ↦ dcim ]

abbrev pub rel_ltb : File → File → Bool
rel_ltb f g = text_ltb f.rel g.rel

abbrev pub start_in : Entries → Option (Text × Entries) → Text × Entries
start_in es none = ([], es)
start_in es (some d) = d

-- Where Scan's walk starts.
unfoldable pub start_of : Entries → Text × Entries
unfolding dcim_dir
start_of es = start_in es (dcim_dir es)

-- Scan, of a root that can be listed.
unfoldable pub scan : Text → Classifier → Entries → Result Error (Shape × Found)
unfolding dcim_dir detect_shape walk
scan root c es =
    walk c root (start_of es).0 (start_of es).1 (record { files = []; unrecognised = [] })
    >>= λ found. ok (
      detect_shape es,
      record { files = sort rel_ltb found.files; unrecognised = sort text_ltb found.unrecognised },
    )
