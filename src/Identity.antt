-- ===== src/Identity.antt =====
-- identity/identity.go: content-derived identities. SHA-256 is the language library's, and a
-- parameter here: any function from bytes to bytes. A file is the list of its bytes.
mod Message
mod Tests
use mediamanager.Base.{
  ℕ, ◌+◌, ◌-◌, ◌*◌, ◌/◌, ◌%◌, ◌^◌, Bool, true, ◌&&◌, ◌||◌, List, [], ◌∷◌, ◌++◌, ltb, leb,
  if◌then◌else◌, length, take, drop, Text, ◌==◌, ℕ_eq, Text_eq, Result, ok, err, ◌>>=◌,
}

abbrev pub Bytes : Type 0
Bytes = List ℕ

-- Chunk
unfoldable pub chunk : ℕ
chunk = 2 ^ 20

-- IDLen
abbrev pub id_len : ℕ
id_len = 16

pub data Error : Type 0 where
  short_read : Error

unfoldable pub is_hex : ℕ → Bool
is_hex c = (leb 48 c && leb c 57) || (leb 97 c && leb c 102)

abbrev pub all_hex : Text → Bool
all_hex [] = true
all_hex (c ∷ s) = is_hex c && all_hex s

-- ID.Valid
unfoldable pub valid : Text → Bool
unfolding is_hex
valid id = length id == id_len && all_hex id

-- hex.EncodeToString
unfoldable pub hex_digit : ℕ → ℕ
hex_digit d = if ltb d 10 then 48 + d else 87 + d

unfoldable pub hex : Bytes → Text
unfolding hex_digit
hex [] = []
hex (b ∷ bs) = hex_digit (b / 16 % 16) ∷ hex_digit (b % 16) ∷ hex bs

-- binary.BigEndian.PutUint64
unfoldable pub be64 : ℕ → Bytes
be64 n =
    (n / 2 ^ 56 % 256)
    ∷ (n / 2 ^ 48 % 256)
    ∷ (n / 2 ^ 40 % 256)
    ∷ (n / 2 ^ 32 % 256)
    ∷ (n / 2 ^ 24 % 256)
    ∷ (n / 2 ^ 16 % 256)
    ∷ (n / 2 ^ 8 % 256)
    ∷ (n % 256)
    ∷ []

-- hashRange: the bytes that go into the hash.
unfoldable pub hash_range : Bytes → ℕ → ℕ → Result Error Bytes
hash_range r off n =
    if n == 0
    then ok []
    else let got = take n (drop off r) in if length got == n then ok got else err short_read

-- What Sparse writes to the hash for a file of the declared size.
unfoldable pub message : Bytes → ℕ → Result Error Bytes
message r size =
    if leb size (2 * chunk) then (do body ← hash_range r 0 size; ok (be64 size ++ body)) else (do
      head ← hash_range r 0 chunk
      tail ← hash_range r (size - chunk) chunk
      ok (be64 size ++ (head ++ tail)))

module _ (sha256 : Bytes → Bytes) where
  -- Sparse. Sizes come from Stat, so the test for a negative one has nothing to model.
  unfoldable pub sparse : Bytes → ℕ → Result Error Text
  sparse r size = do m ← message r size; ok (take id_len (hex (sha256 m)))

  -- SparseFile on an open file, whose size is that of its content.
  unfoldable pub sparse_file : Bytes → Result Error (Text × ℕ)
  sparse_file r = do id ← sparse r (length r); ok (id, length r)

  -- Full, FullFile
  unfoldable pub full : Bytes → Text
  full r = hex (sha256 r)
