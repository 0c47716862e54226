-- ===== src/Clock.antt =====
-- Go's `time.Time` as the program uses it: an instant that is compared, and the calendar date of
-- that instant in the value's own zone, which the layouts print. The zero time has instant 0.
-- Language library, not code of the repository.
use mediamanager.Base.{ℕ, Bool, [], ltb, Text, ◌==◌, ℕ_eq, Text_eq}

pub record Time : Type 0 where
  pub instant : ℕ
  pub year : ℕ
  pub month : ℕ
  pub day : ℕ
  -- The RFC 3339 form with the value's own offset, which is what the catalog stores and sorts by.
  pub stamp : Text

abbrev pub zero_time : Time
zero_time = record { instant = 0; year = 1; month = 1; day = 1; stamp = [] }

-- Time.IsZero, Time.Before, Time.Equal
unfoldable pub is_zero : Time → Bool
is_zero t = t.instant == 0

unfoldable pub before : Time → Time → Bool
before t u = ltb t.instant u.instant

unfoldable pub equal : Time → Time → Bool
equal t u = t.instant == u.instant
