-- ===== src/Scan/Classes.antt =====
-- The extension table of scan/classify.go, for every order in which NewClassifier meets its lists.
use mediamanager.Base.{
  ◌≡◌, refl, ◌∙◌, ◌≢◌, inl, inr, Bool, true, false, List, [], ◌∷◌, ◌++◌, arith, if◌then◌else◌,
  Bool-cases, any, In, Text, text_eq_iff, contains, lower, ◌==◌, ℕ_eq, Text_eq, Pair_eq,
}
use mediamanager.Media.{Kind, Kind_eq}
use mediamanager.Naming.Split.{split_last-append}
use mediamanager.Scan.{norm_ext, enter, enter_all, new_classifier, kind_of, classify}

-- Whether a list of extensions has `ext`.
abbrev pub has_ext : Text → List Text → Bool
has_ext ext = any (λ e. norm_ext e == ext)

kind_of-enter :
    (k : Kind) (es : List Text) (table : List (Text × Kind)) (ext : Text)
    → kind_of (enter k es table) ext ≡ (if has_ext ext es then k else kind_of table ext)
unfolding enter kind_of
kind_of-enter k [] table ext = refl
kind_of-enter k (e ∷ es) table ext = kind_of-enter k es ((norm_ext e, k) ∷ table) ext ∙ ground arith

-- An extension of the last list has that list's kind, whatever the others say.
pub kind_of-last :
    (lists : List (Kind × List Text)) (k : Kind) (es : List Text) (table : List (Text × Kind))
    (ext : Text)
    → has_ext ext es ≡ true
    → kind_of (enter_all (lists ++ ((k, es) ∷ [])) table) ext ≡ k
unfolding enter_all
kind_of-last [] k es table ext h = kind_of-enter k es table ext ∙ ground (arith, h)
kind_of-last ((j, ds) ∷ lists) k es table ext h = kind_of-last lists k es (enter j ds table) ext h

-- No list but those of kind `k` has the extension.
abbrev pub Only : Kind → Text → List (Kind × List Text) → Type 0
Only k ext lists = (l : Kind × List Text) → In l lists → has_ext ext l.1 ≡ true → l.0 ≡ k

kind_of-kept :
    (lists : List (Kind × List Text)) (k : Kind) (table : List (Text × Kind)) (ext : Text)
    → Only k ext lists
    → kind_of table ext ≡ k
    → kind_of (enter_all lists table) ext ≡ k
unfolding enter_all
kind_of-kept [] k table ext o h = h
kind_of-kept ((j, es) ∷ lists) k table ext o h =
    kind_of-kept lists k (enter j es table) ext (λ l i. o l (inr i))
      (kind_of-enter j es table ext ∙ (elim (Bool-cases (has_ext ext es)) [
        | inl b ↦ ground (arith, b, o (j, es) (inl refl) b)
        | inr b ↦ ground (arith, b, h)
      ]))

kind_of-found :
    (lists : List (Kind × List Text)) (k : Kind) (es : List Text) (table : List (Text × Kind))
    (ext : Text)
    → Only k ext lists
    → In (k, es) lists
    → has_ext ext es ≡ true
    → kind_of (enter_all lists table) ext ≡ k
unfolding enter_all
kind_of-found [] k es table ext o m h = absurd m
kind_of-found ((j, ds) ∷ lists) k es table ext o (inr m) h =
    kind_of-found lists k es (enter j ds table) ext (λ l i. o l (inr i)) m h
kind_of-found ((j, ds) ∷ lists) k es table ext o (inl e) h =
    kind_of-kept lists k (enter j ds table) ext (λ l i. o l (inr i))
      (kind_of-enter j ds table ext ∙ ground (arith, h, e))

-- A name whose lower-case extension is listed for one kind only is of that kind, in whichever
-- order the lists were met. The stem and the extension are not empty, and the extension has no
-- dot.
pub classify-Only :
    (lists : List (Kind × List Text)) (k : Kind) (es : List Text) (stem ext : Text)
    → stem ≢ []
    → ext ≢ []
    → Only k (lower ext) lists
    → In (k, es) lists
    → has_ext (lower ext) es ≡ true
    → contains ext 46 ≡ false
    → classify (new_classifier lists) (stem ++ (46 ∷ ext)) ≡ (k, lower ext)
unfolding classify new_classifier
classify-Only lists k es stem ext n m o i h d =
    rw (split_last-append 46 stem ext d, classify)
      (ground (
        arith,
        text_eq_iff stem [],
        text_eq_iff ext [],
        kind_of-found lists k es [] (lower ext) o i h,
      ))

-- An extension that several lists have is of the kind of whichever list was met last.
pub new_classifier-last :
    (lists : List (Kind × List Text)) (k : Kind) (es : List Text) (ext : Text)
    → has_ext ext es ≡ true
    → kind_of (new_classifier (lists ++ ((k, es) ∷ []))).by_ext ext ≡ k
unfolding new_classifier
new_classifier-last lists k es ext h = kind_of-last lists k es [] ext h
