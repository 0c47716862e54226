-- ===== src/Naming/Split.antt =====
-- How the cuts of naming/naming.go at a last dot or dash undo the joins.
use mediamanager.Base.{
  ℕ, ◌≡◌, refl, ◌≢◌, inl, inr, false, ◌||◌, none, some, [], ◌∷◌, ◌++◌, arith, Option-cases, Text,
  contains, split_last,
}
use mediamanager.SlashPath.{dot}
use mediamanager.Naming.{split_ext, join_ext}

pub contains-append : (s t : Text) (c : ℕ) → contains (s ++ t) c ≡ (contains s c || contains t c)
unfolding contains
contains-append [] t c = refl
contains-append (d ∷ s) t c = ground (arith, contains-append s t c)

pub split_last-lacks : (c : ℕ) (s : Text) → contains s c ≡ false → split_last c s ≡ none
unfolding split_last contains
split_last-lacks c [] h = refl
split_last-lacks c (d ∷ s) h = ground (arith, split_last-lacks c s)

-- A text is cut at the last occurrence.
pub split_last-append :
    (c : ℕ) (s t : Text) → contains t c ≡ false → split_last c (s ++ (c ∷ t)) ≡ some (s, t)
unfolding split_last
split_last-append c [] t h = ground (arith, split_last-lacks c t)
split_last-append c (d ∷ s) t h = ground (arith, split_last-append c s t)

pub split_last-none : (c : ℕ) (s : Text) → split_last c s ≡ none → contains s c ≡ false
unfolding split_last contains
split_last-none c [] h = refl
split_last-none c (d ∷ s) h = ground (arith, split_last-none c s)

-- What lies after the cut lacks the character.
pub split_last-after :
    (c : ℕ) (s b a : Text)
    → split_last c s ≡ some (b, a)
    → (s ≡ b ++ (c ∷ a)) × (contains a c ≡ false)
unfolding split_last
split_last-after c [] b a h = cc
split_last-after c (d ∷ s) b a h = elim (Option-cases (split_last c s)) [
  | inl e ↦ ground (arith, split_last-none c s)
  | inr ((b', a'), e) ↦ ground (arith, split_last-after c s b' a')
]

-- A name with an extension that has no dot is cut where it was joined.
pub split_ext-join_ext :
    (b e : Text) → b ≢ [] → e ≢ [] → contains e dot ≡ false → split_ext (join_ext b e) ≡ (b, e)
unfolding split_ext join_ext
split_ext-join_ext [] e k l h = absurd (k refl)
split_ext-join_ext (c ∷ b) [] k l h = absurd (l refl)
split_ext-join_ext (c ∷ b) (d ∷ e) k l h = rw (split_last-append dot (c ∷ b) (d ∷ e) h, split_ext)

-- An extension has no dot.
pub split_ext-lacks : (n : Text) → contains (split_ext n).1 dot ≡ false
unfolding split_ext contains
split_ext-lacks n = elim (Option-cases (split_last dot n)) [
  | inl e ↦ rw (e, split_ext)
  | inr (([], a), e) ↦ rw (e, split_ext)
  | inr ((c ∷ b, a), e) ↦ rw (e, split_ext) (split_last-after dot n (c ∷ b) a e).1
]
