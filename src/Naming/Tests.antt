-- ===== src/Naming/Tests.antt =====
-- The names of naming/naming.go at concrete inputs.
use mediamanager.Base.{
  ◌≡◌, refl, ◌≢◌, true, some, [], arith, codes, text_eq, split_last, ℕ_eq, Text_eq, Pair_eq, ok,
}
use mediamanager.Media.{video, kind_eq, Kind_eq, uses_sparse_id}
use mediamanager.Clock.{Time}
use mediamanager.Identity
use mediamanager.Naming.Safe.{IsSafeName}
use mediamanager.Naming.RoundTrip.{parse-file_name, file_name_idem}
use mediamanager.Naming.{
  Asset, split_ext, join_ext, sanitize, Parsed, parse_base, parse, name_base, strip_id, file_name,
  date_path, sidecar_path, with_suffix,
}

abbrev july : Time
july = record { instant = 7; year = 2026; month = 7; day = 9; stamp = codes "2026-07-09T10:00:00Z" }

abbrev clip : Asset
clip = record {
  kind = video;
  orig_name = codes "A001_0710 C007.MOV";
  id = codes "0123456789abcdef";
  capture_time = july;
}

clip_name : file_name clip ≡ ok (codes "a001_0710_c007-0123456789abcdef.mov")
unfolding file_name text_eq split_last kind_eq Identity.valid parse parse_base strip_id join_ext
    split_ext sanitize name_base
clip_name = refl

clip_path : date_path clip ≡ ok (codes "2026/07/09/a001_0710_c007-0123456789abcdef.mov")
unfolding date_path file_name text_eq split_last kind_eq Identity.valid parse parse_base strip_id
    join_ext split_ext sanitize name_base
clip_path = refl

suffix_test : with_suffix (codes "a/b.dng") 12 ≡ codes "a/b_12.dng"
unfolding with_suffix text_eq split_last
suffix_test = refl

phos_test : sidecar_path (codes "a/b.3fr") (codes "PHOS") ≡ codes "a/b.3fr.phos"
unfolding sidecar_path text_eq split_last
phos_test = refl

clip_kind : uses_sparse_id clip.kind ≡ true
unfolding uses_sparse_id
clip_kind = refl

clip_split : split_ext (codes "A001_0710 C007.MOV") ≡ (codes "A001_0710 C007", codes "MOV")
unfolding split_ext split_last
clip_split = refl

clip_ext : (split_ext clip.orig_name).1 ≢ []
clip_ext e = ground (arith, e, clip_split)

parse-file_name_example :
    (p : Parsed) × (parse (codes "a001_0710_c007-0123456789abcdef.mov") ≡ some p)
    × (p.id ≡ clip.id)
    × (p.ext ≡ sanitize (split_ext clip.orig_name).1)
    × IsSafeName p.base
parse-file_name_example =
    parse-file_name clip (codes "a001_0710_c007-0123456789abcdef.mov") clip_kind clip_ext clip_name

file_name_idem_example :
    file_name (record clip { orig_name = codes "a001_0710_c007-0123456789abcdef.mov" })
    ≡ ok (codes "a001_0710_c007-0123456789abcdef.mov")
file_name_idem_example =
    file_name_idem clip (codes "a001_0710_c007-0123456789abcdef.mov") clip_kind clip_ext clip_name
