-- ===== src/Scan.antt =====
-- scan/scan.go, scan/classify.go and scan/junk.go: the media files below a directory and what they
-- are to each other. When they were shot (scan/capture.go, scan/exif.go, scan/mp4.go) is not here.
pub mod Mp4
pub mod Classes
pub mod Walk
pub mod Recognised
pub mod Tests
use mediamanager.Base.{
  ℕ, Bool, true, false, ◌&&◌, ◌||◌, none, some, List, [], ◌∷◌, if◌then◌else◌, any, Text, codes,
  has_prefix, has_suffix, trim_prefix, lower, split_last, ◌==◌, ℕ_eq, Text_eq, Pair_eq,
}
use mediamanager.Clock.{Time}
use mediamanager.Media.{Kind, unknown, video, audio, still, Kind_eq}
use mediamanager.SlashPath
use mediamanager.Copyfile.{partial_suffix}

-- Shape
pub data Shape : Type 0 where
  flat dcim : Shape

-- Role: what a file is to its original.
pub data Role : Type 0 where
  original proxy sidecar proxy_sidecar : Role

-- File
pub record File : Type 0 where
  pub rel : Text
  pub abs : Text
  pub kind : Kind
  pub ext : Text
  pub size : ℕ
  pub mod_time : Time
  pub role : Role

-- File.IsOriginal
unfoldable pub is_original : File → Bool
is_original f = elim f.role [ original ↦ true | other ↦ false ]

abbrev pub sidecar_exts : List Text
sidecar_exts = codes "sidecar" ∷ codes "xmp" ∷ codes "phos" ∷ []

-- KeepsOriginalExt
unfoldable pub keeps_original_ext : Text → Bool
keeps_original_ext ext = lower ext == codes "phos"

-- IsSidecarExt
unfoldable pub is_sidecar_ext : Text → Bool
is_sidecar_ext ext = any (λ e. e == lower ext) sidecar_exts

-- The name before its last dot, unless that dot comes first.
unfoldable pub strip_ext : Text → Text
strip_ext name = elim (split_last 46 name) [
  | none ↦ name
  | some (stem, rest) ↦ if stem == [] then name else stem
]

-- File.Base, File.Name, File.OriginalDir
unfoldable pub base : File → Text
unfolding strip_ext keeps_original_ext
base f =
    let name = strip_ext (SlashPath.base f.rel) in
    if keeps_original_ext f.ext then strip_ext name else name

unfoldable pub name : File → Text
name f = SlashPath.base f.rel

unfoldable pub original_dir : File → Text
original_dir f = elim f.role [
  | proxy ↦ SlashPath.dir (SlashPath.dir f.rel)
  | proxy_sidecar ↦ SlashPath.dir (SlashPath.dir f.rel)
  | other ↦ SlashPath.dir f.rel
]

-- strings.EqualFold against an ASCII word in lower case
unfoldable pub folds_to : Text → Text → Bool
folds_to s word = lower s == word

-- roleOf
unfoldable pub role_of : Text → Kind → Text → Role
unfolding is_sidecar_ext folds_to
role_of rel kind ext =
    let in_proxy = folds_to (SlashPath.base (SlashPath.dir rel)) (codes "proxy") in
    if is_sidecar_ext ext && in_proxy
    then proxy_sidecar
    else if is_sidecar_ext ext
    then sidecar
    else if in_proxy && kind == video
    then proxy
    else original

abbrev pub junk_names : List Text
junk_names =
    codes ".DS_Store"
    ∷ codes ".Spotlight-V100"
    ∷ codes ".fseventsd"
    ∷ codes ".Trashes"
    ∷ codes ".TemporaryItems"
    ∷ codes ".VolumeIcon.icns"
    ∷ codes "Thumbs.db"
    ∷ codes "desktop.ini"
    ∷ codes "$RECYCLE.BIN"
    ∷ codes "System Volume Information"
    ∷ []

-- IsJunk
unfoldable pub is_junk : Text → Bool
is_junk n =
    any (λ j. j == n) junk_names
    || has_prefix n (codes "._")
    || has_prefix n (codes ".blackmagicsync")
    || has_suffix n partial_suffix

-- Classifier: the map byExt; the first entry for an extension counts, so a new one goes in front.
pub record Classifier : Type 0 where
  pub by_ext : List (Text × Kind)

-- One entry of NewClassifier's table: lower case, without a leading dot.
unfoldable pub norm_ext : Text → Text
norm_ext e = lower (trim_prefix e (codes "."))

unfoldable pub enter : Kind → List Text → List (Text × Kind) → List (Text × Kind)
unfolding norm_ext
enter kind [] table = table
enter kind (e ∷ es) table = enter kind es ((norm_ext e, kind) ∷ table)

unfoldable pub enter_all : List (Kind × List Text) → List (Text × Kind) → List (Text × Kind)
unfolding enter
enter_all [] table = table
enter_all ((kind, exts) ∷ ls) table = enter_all ls (enter kind exts table)

-- NewClassifier: `range` goes over its map of three lists in an order that is not fixed, so the
-- lists are given here in the order of the run.
unfoldable pub new_classifier : List (Kind × List Text) → Classifier
unfolding enter_all
new_classifier lists = record { by_ext = enter_all lists [] }

unfoldable pub kind_of : List (Text × Kind) → Text → Kind
kind_of [] ext = unknown
kind_of ((e, k) ∷ table) ext = if e == ext then k else kind_of table ext

-- Classifier.Classify
unfoldable pub classify : Classifier → Text → Kind × Text
unfolding kind_of
classify c n = elim (split_last 46 n) [
  | none ↦ (unknown, [])
  | some (stem, rest) ↦
      if stem == [] || rest == []
      then (unknown, [])
      else (kind_of c.by_ext (lower rest), lower rest)
]

-- DefaultVideoExts, DefaultAudioExts, DefaultStillExts
abbrev pub default_video_exts : List Text
default_video_exts = codes "braw" ∷ codes "mov" ∷ codes "mp4" ∷ []

abbrev pub default_audio_exts : List Text
default_audio_exts = codes "wav" ∷ codes "flac" ∷ codes "mp3" ∷ []

abbrev pub default_still_exts : List Text
default_still_exts =
    codes "jpg"
    ∷ codes "jpeg"
    ∷ codes "heif"
    ∷ codes "heic"
    ∷ codes "dng"
    ∷ codes "rw2"
    ∷ codes "3fr"
    ∷ codes "tif"
    ∷ codes "tiff"
    ∷ []

-- DefaultClassifier, for one order of the lists
abbrev pub default_classifier : Classifier
default_classifier =
    new_classifier
      ((video, default_video_exts) ∷ (audio, default_audio_exts) ∷ (still, default_still_exts) ∷ [])
