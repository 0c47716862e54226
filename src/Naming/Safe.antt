-- ===== src/Naming/Safe.antt =====
-- Rule R7's names: what Sanitize and FileName put into a name.
use mediamanager.Base.{
  ℕ, ◌≡◌, refl, true, false, [], ◌∷◌, ◌++◌, arith, All, Text, contains, to_lower, ◌==◌, ℕ_eq,
  Text_eq,
}
use mediamanager.Media.{Kind_eq}
use mediamanager.SlashPath.{dot}
use mediamanager.Identity.{is_hex, all_hex}
use mediamanager.Naming.{is_safe, safe_char, sanitize}

-- Every character is a lower-case letter, a digit, a dot, an underscore or a dash.
abbrev pub IsSafeName : Text → Type 0
IsSafeName = All (λ c. is_safe c ≡ true)

safe_char-is_safe : (c : ℕ) → is_safe (safe_char c) ≡ true
unfolding safe_char
safe_char-is_safe c = ground arith

safe_char_lem : (c : ℕ) → is_safe c ≡ true → safe_char (to_lower c) ≡ c
unfolding safe_char to_lower
safe_char_lem c h = ground arith

-- The case fold gives no dot, so a dot in the output was a dot in the input.
safe_char-dot : (c : ℕ) → (safe_char (to_lower c) == dot) ≡ (c == dot)
unfolding safe_char to_lower
safe_char-dot c = ground arith

pub sanitize-IsSafeName : (s : Text) → IsSafeName (sanitize s)
unfolding sanitize
sanitize-IsSafeName [] = tt
sanitize-IsSafeName (c ∷ s) = (safe_char-is_safe (to_lower c), sanitize-IsSafeName s)

pub sanitize_fixed : (s : Text) → IsSafeName s → sanitize s ≡ s
unfolding sanitize
sanitize_fixed [] h = refl
sanitize_fixed (c ∷ s) h = cc (safe_char_lem c h.0, sanitize_fixed s h.1)

pub contains-sanitize : (s : Text) → contains (sanitize s) dot ≡ contains s dot
unfolding sanitize contains
contains-sanitize [] = refl
contains-sanitize (c ∷ s) = cc (safe_char-dot c, contains-sanitize s)

pub IsSafeName-append : (s t : Text) → IsSafeName s → IsSafeName t → IsSafeName (s ++ t)
IsSafeName-append [] t h k = k
IsSafeName-append (c ∷ s) t h k = (h.0, IsSafeName-append s t h.1 k)

-- A hexadecimal digit is a safe character, and neither a dash nor a dot.
is_hex-is_safe : (c : ℕ) → is_hex c ≡ true → is_safe c ≡ true
unfolding is_hex is_safe
is_hex-is_safe c h = ground arith

pub all_hex-IsSafeName : (s : Text) → all_hex s ≡ true → IsSafeName s
all_hex-IsSafeName [] h = tt
all_hex-IsSafeName (c ∷ s) h =
    (is_hex-is_safe c (ground arith), all_hex-IsSafeName s (ground arith))

pub all_hex-lacks : (c : ℕ) (s : Text) → is_hex c ≡ false → all_hex s ≡ true → contains s c ≡ false
unfolding contains
all_hex-lacks c [] k h = refl
all_hex-lacks c (d ∷ s) k h = ground (arith, all_hex-lacks c s)
