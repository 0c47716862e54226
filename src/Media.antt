-- ===== src/Media.antt =====
-- media/kind.go: the kinds of media file. `Kind` is an int in the source; the values other than
-- the four constants are never made, so `String`'s `Kind(%d)` is met at `unknown` only.
use mediamanager.Base.{
  ◌≡◌, ◌↔◌, Bool, true, false, ◌||◌, arith, Text, codes, Eq, ◌==◌, ℕ_eq, Text_eq,
}

pub data Kind : Type 0 where
  unknown video audio still : Kind

unfoldable pub kind_eq : Kind → Kind → Bool
kind_eq unknown unknown = true
kind_eq video video = true
kind_eq audio audio = true
kind_eq still still = true
kind_eq _ _ = false

pub kind_eq_iff : (a b : Kind) → (kind_eq a b ≡ true) ↔ (a ≡ b)
unfolding kind_eq
kind_eq_iff a b = ground arith

instance abbrev pub Kind_eq : Eq Kind
Kind_eq = record { beq = kind_eq; beq_iff = kind_eq_iff }

-- Kind.String
unfoldable pub string : Kind → Text
string video = codes "video"
string audio = codes "audio"
string still = codes "still"
string unknown = codes "Kind(0)"

-- Kind.UsesSparseID
unfoldable pub uses_sparse_id : Kind → Bool
unfolding kind_eq
uses_sparse_id k = k == video || k == audio
