-- ===== src/Base/Exec/Keeps.antt =====
-- Rules for actions: what each keeps, and what holds after a sequence of them.

use mathlib.Core.Path.{◌≡◌, refl, subst}
use mathlib.Core.Bool.{Bool, true, false}
use mediamanager.Base.Tests.{if◌then◌else◌}
use mediamanager.Base.Outcome.{Result, ok, err}
use mediamanager.Base.Exec.{Exec, pure, fail, continue, ◌>>=◌}

-- `m` keeps `K`, whether it returns or fails.
pub record Keeps {S E A : Type 0} (K : S → Type 0) (m : Exec S E A) : Type 0 where
  pub at : (s : S) → K s → K (m s).1

-- What holds after a return, and after a failure.
abbrev pub Post : {S E A : Type 0} → (A → S → Type 0) → (E → S → Type 0) → Result E A → S → Type 0
Post good bad (ok a) s = good a s
Post good bad (err e) s = bad e s

-- From a state with `P`, `m` ends in `good` if it returns and in `bad` if it fails.
pub record Ensures {S E A : Type 0} (P : S → Type 0) (m : Exec S E A) (good : A → S → Type 0)
    (bad : E → S → Type 0) : Type 0 where
  pub at : (s : S) → P s → Post good bad (m s).0 (m s).1

Post-both :
    {S E A : Type 0} (K : S → Type 0) (r : Result E A) (s : S) → K s → Post (λ _. K) (λ _. K) r s
Post-both K (ok a) s h = h
Post-both K (err e) s h = h

module _ {S E A : Type 0} {K : S → Type 0} where
  pub Keeps-pure : (a : A) → Keeps {E = E} K (pure a)
  Keeps-pure a = record { at = λ s h. h }

  pub Keeps-fail : (e : E) → Keeps {A = A} K (fail e)
  Keeps-fail e = record { at = λ s h. h }

  pub Keeps-if :
      (b : Bool) (m n : Exec S E A) → Keeps K m → Keeps K n → Keeps K (if b then m else n)
  Keeps-if true m n h k = h
  Keeps-if false m n h k = k

  pub Keeps-Ensures : {m : Exec S E A} → Keeps K m → Ensures K m (λ _. K) (λ _. K)
  Keeps-Ensures {m = m} k = record { at = λ s h. Post-both K (m s).0 (m s).1 (k.at s h) }

module _ {S E A B : Type 0} {K : S → Type 0} where
  keeps_rest :
      (f : A → Exec S E B)
      → ((a : A) → Keeps K (f a))
      → (r : Result E A) (s : S) → K s
      → K (continue r f s).1
  keeps_rest f kf (ok a) s h = (kf a).at s h
  keeps_rest f kf (err e) s h = h

  pub Keeps-bind :
      (m : Exec S E A) (f : A → Exec S E B)
      → Keeps K m
      → ((a : A) → Keeps K (f a))
      → Keeps K (m >>= f)
  Keeps-bind m f km kf = record { at = λ s h. keeps_rest f kf (m s).0 (m s).1 (km.at s h) }

ensures_rest :
    {S E A B : Type 0} {mid : A → S → Type 0} {good : B → S → Type 0} {bad : E → S → Type 0}
    (f : A → Exec S E B)
    → ((a : A) → Ensures (mid a) (f a) good bad)
    → (r : Result E A) (s : S) → Post mid bad r s
    → Post good bad (continue r f s).0 (continue r f s).1
ensures_rest f kf (ok a) s h = (kf a).at s h
ensures_rest f kf (err e) s h = h

module _ {S E A B : Type 0} {P : S → Type 0} {mid : A → S → Type 0} {good : B → S → Type 0}
    {bad : E → S → Type 0} where
  pub Ensures-bind :
      (m : Exec S E A) (f : A → Exec S E B)
      → Ensures P m mid bad
      → ((a : A) → Ensures (mid a) (f a) good bad)
      → Ensures P (m >>= f) good bad
  Ensures-bind m f km kf = record { at = λ s h. ensures_rest f kf (m s).0 (m s).1 (km.at s h) }

-- What holds after a return and after a failure holds.
pub always :
    {S E A : Type 0} (K : S → Type 0) (r : Result E A) (s : S) → Post (λ a. K) (λ e. K) r s → K s
always K (ok a) s h = h
always K (err e) s h = h

pub Ensures-Keeps :
    {S E A : Type 0} (K : S → Type 0) (m : Exec S E A) → Ensures K m (λ _. K) (λ _. K) → Keeps K m
Ensures-Keeps K m k = record { at = λ s h. always K (m s).0 (m s).1 (k.at s h) }

Post-map :
    {S E A : Type 0} {good good' : A → S → Type 0} {bad bad' : E → S → Type 0}
    → ((a : A) (s : S) → good a s → good' a s)
    → ((e : E) (s : S) → bad e s → bad' e s)
    → (r : Result E A) (s : S) → Post good bad r s
    → Post good' bad' r s
Post-map g b (ok a) s h = g a s h
Post-map g b (err e) s h = b e s h

module _ {S E A : Type 0} {P : S → Type 0} {good good' : A → S → Type 0}
    {bad bad' : E → S → Type 0} where
  pub Ensures-weaken :
      (m : Exec S E A)
      → ((a : A) (s : S) → good a s → good' a s)
      → ((e : E) (s : S) → bad e s → bad' e s)
      → Ensures P m good bad
      → Ensures P m good' bad'
  Ensures-weaken m g b k = record { at = λ s h. Post-map g b (m s).0 (m s).1 (k.at s h) }

module _ {S E A : Type 0} {P : S → Type 0} {good : A → S → Type 0} {bad : E → S → Type 0} where
  pub Ensures-if :
      (b : Bool) (m n : Exec S E A)
      → (b ≡ true → Ensures P m good bad)
      → (b ≡ false → Ensures P n good bad)
      → Ensures P (if b then m else n) good bad
  Ensures-if true m n h k = h refl
  Ensures-if false m n h k = k refl

module _ {S E A F : Type 0} {P : S → Type 0} {good : A → S → Type 0} {bad : E → S → Type 0} where
  pub Ensures-fact :
      {m : Exec S E A} → (F → Ensures P m good bad) → Ensures (λ s. P s × F) m good bad
  Ensures-fact k = record { at = λ s h. (k h.1).at s h.0 }

-- It is enough to start from less.
pub Ensures-from :
    {S E A : Type 0} {P Q : S → Type 0} {good : A → S → Type 0} {bad : E → S → Type 0}
    {m : Exec S E A}
    → ((s : S) → P s → Q s)
    → Ensures Q m good bad
    → Ensures P m good bad
Ensures-from f k = record { at = λ s h. k.at s (f s h) }

no_post : {S E A : Type 0} (r : Result E A) (s : S) → Post (λ a s. Unit {0}) (λ e s. Unit {0}) r s
no_post (ok a) s = tt
no_post (err e) s = tt

-- Nothing is asked of a step, and nothing is known of its end.
pub Ensures-nothing :
    {S E A : Type 0} {P : S → Type 0} (m : Exec S E A)
    → Ensures P m (λ a s. Unit {0}) (λ e s. Unit {0})
Ensures-nothing m = record { at = λ s h. no_post (m s).0 (m s).1 }

-- What holds after a return, of the value that is returned.
pub Post-ok :
    {S E A : Type 0} (good : A → S → Type 0) (r : Result E A) (s : S) (a : A)
    → Post good (λ e s. Unit {0}) r s
    → r ≡ ok a
    → good a s
Post-ok good (ok b) s a h q = let same : b ≡ a = cc in subst (λ x. good x s) same h
Post-ok good (err e) s a h q = cc

pub ruleset keeps_rules = (Keeps-pure, Keeps-fail, Keeps-if, Keeps-bind)
