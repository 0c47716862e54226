-- ===== src/Ingest/Owner.antt =====
-- Whose a companion is, of ingest/steps.go, against an ordered list of tests, of which the first one
-- that any candidate passes decides.
use mediamanager.Base.{
  ℕ, zero, suc, ◌≤◌, ◌<◌, ◌≡◌, refl, sym, ap, ◌∙◌, subst, inl, inr, Bool, true, false, ◌&&◌, ◌||◌,
  not, Option, none, some, List, [], ◌∷◌, arith, ltb, leb, if◌then◌else◌, Bool-cases, Option-cases,
  any, first, Text, codes, text_eq, text_eq_iff, trim_prefix, lower, ℕ_eq, Text_eq, Pair_eq, ◌==◌,
}
use mediamanager.Media.{Kind, unknown, video, audio, still, kind_eq, Kind_eq}
use mediamanager.SlashPath
use mediamanager.Catalog.{LocationKind_eq, Asset, CopyState_eq, Role_eq}
use mediamanager.Ingest.{score, best_owner, preferred_owner}

-- A still that no camera derives from another one.
abbrev pub is_raw : Asset → Bool
is_raw a =
    a.kind == still
    && not (
        any (λ d. d == lower (trim_prefix (SlashPath.ext a.rel_path) (codes ".")))
          (codes "jpg" ∷ codes "jpeg" ∷ codes "heic" ∷ codes "heif" ∷ []))

abbrev pub is_kind : Kind → Asset → Bool
is_kind k a = a.kind == k

-- The tests for a companion with this extension.
abbrev pub wishes : Text → List (Asset → Bool)
wishes ext =
    if ext == codes "xmp" || ext == codes "phos"
    then is_raw ∷ is_kind still ∷ is_kind video ∷ []
    else is_kind video ∷ []

abbrev pub or_next : Option Asset → Asset → Asset
or_next none d = d
or_next (some a) d = a

-- The first candidate that passes the first test that any of them passes, or else the first of all.
abbrev pub first_wish : List (Asset → Bool) → Asset → List Asset → Asset
first_wish [] c cs = c
first_wish (p ∷ ps) c cs = or_next (first p (c ∷ cs)) (first_wish ps c cs)

abbrev at_least : Text → ℕ → Asset → Bool
at_least ext k a = leb k (score ext a)

best_owner-score :
    (ext : Text) (best : Asset) (cs : List Asset)
    → score ext best ≤ score ext (best_owner ext best cs)
unfolding best_owner
best_owner-score ext best [] = omega arith
best_owner-score ext best (c ∷ cs) = elim (Bool-cases (ltb (score ext best) (score ext c))) [
  | inl b ↦ rw b (ground (arith, b, best_owner-score ext c cs))
  | inr b ↦ rw b (best_owner-score ext best cs)
]

-- No candidate reaches more than the best one.
first-above :
    (ext : Text) (k : ℕ) (best : Asset) (cs : List Asset)
    → score ext (best_owner ext best cs) < k
    → first (at_least ext k) (best ∷ cs) ≡ none
unfolding best_owner
first-above ext k best [] h = ground (arith, h)
first-above ext k best (c ∷ cs) h = elim (Bool-cases (ltb (score ext best) (score ext c))) [
  | inl b ↦
      let h' : score ext (best_owner ext c cs) < k =
        subst (λ x. score ext (best_owner ext (if x then c else best) cs) < k) b h in
      ground (arith, b, h', first-above ext k c cs h', best_owner-score ext c cs)
  | inr b ↦
      let h' : score ext (best_owner ext best cs) < k =
        subst (λ x. score ext (best_owner ext (if x then c else best) cs) < k) b h in
      ground (arith, b, h', first-above ext k best cs h', best_owner-score ext best cs)
]

-- The best one is the first that reaches as much.
first-best :
    (ext : Text) (k : ℕ) (best : Asset) (cs : List Asset)
    → k ≡ score ext (best_owner ext best cs)
    → first (at_least ext k) (best ∷ cs) ≡ some (best_owner ext best cs)
unfolding best_owner
first-best ext k best [] h = ground (arith, h)
first-best ext k best (c ∷ cs) h = elim (Bool-cases (ltb (score ext best) (score ext c))) [
  | inl b ↦
      let h' : k ≡ score ext (best_owner ext c cs) =
        subst (λ x. k ≡ score ext (best_owner ext (if x then c else best) cs)) b h in
      rw b (ground (arith, b, h', first-best ext k c cs h', best_owner-score ext c cs))
  | inr b ↦
      let h' : k ≡ score ext (best_owner ext best cs) =
        subst (λ x. k ≡ score ext (best_owner ext (if x then c else best) cs)) b h in
      rw b (ground (arith, b, h', first-best ext k best cs h', best_owner-score ext best cs))
]

score_bound : (ext : Text) (a : Asset) → score ext a ≤ 3
unfolding score
score_bound ext a = ground arith

-- Going down the scores finds the best one.
by_score :
    (ext : Text) (c : Asset) (cs : List Asset)
    → first_wish (at_least ext 3 ∷ at_least ext 2 ∷ at_least ext 1 ∷ []) c cs ≡ best_owner ext c cs
by_score ext c cs =
    at (score ext (best_owner ext c cs)) refl (score_bound ext (best_owner ext c cs))
  where
    at :
        (m : ℕ)
        → m ≡ score ext (best_owner ext c cs)
        → m ≤ 3
        → first_wish (at_least ext 3 ∷ at_least ext 2 ∷ at_least ext 1 ∷ []) c cs
          ≡ best_owner ext c cs
    at zero e l = rw (first-above ext 3 c cs (omega (arith, e))) (
        rw (first-above ext 2 c cs (omega (arith, e))) (
          rw (first-above ext 1 c cs (omega (arith, e))) (ground (arith, first-best ext 0 c cs e))))
    at (suc zero) e l =
        rw (first-above ext 3 c cs (omega (arith, e)))
          (rw (first-above ext 2 c cs (omega (arith, e))) (rw (first-best ext 1 c cs e) refl))
    at (suc (suc zero)) e l =
        rw (first-above ext 3 c cs (omega (arith, e))) (rw (first-best ext 2 c cs e) refl)
    at (suc (suc (suc zero))) e l = rw (first-best ext 3 c cs e) refl
    at (suc (suc (suc (suc m)))) e l = absurd (omega (arith, l))

module _ (p q : Asset → Bool) where
  first-same : ((a : Asset) → p a ≡ q a) → (xs : List Asset) → first p xs ≡ first q xs
  first-same e [] = refl
  first-same e (x ∷ xs) = ground (arith, e x, first-same e xs)

  -- Where no element passes one test, it does not matter beside another.
  first-or :
      (r : Asset → Bool)
      → ((a : Asset) → r a ≡ (q a || p a))
      → (xs : List Asset) → first q xs ≡ none
      → first r xs ≡ first p xs
  first-or r e [] n = refl
  first-or r e (x ∷ xs) n = ground (arith, e x, n, first-or r e xs)

same_thrice : (o : Option Asset) (d : Asset) → or_next o d ≡ or_next o (or_next o (or_next o d))
same_thrice none d = refl
same_thrice (some a) d = refl

found_anyway : (o : Option Asset) (a d e : Asset) → o ≡ some a → or_next o d ≡ or_next o e
found_anyway none a d e q = cc
found_anyway (some b) a d e q = refl

first-never :
    (p : Asset → Bool) → ((a : Asset) → p a ≡ false) → (xs : List Asset) → first p xs ≡ none
first-never p e [] = refl
first-never p e (x ∷ xs) = ground (arith, e x, first-never p e xs)

still-video : (a : Asset) → is_kind still a ≡ true → is_kind video a ≡ false
unfolding kind_eq
still-video a h = apart a.kind h
  where
    apart : (k : Kind) → (k == still) ≡ true → (k == video) ≡ false
    apart still h = refl
    apart video h = cc
    apart audio h = refl
    apart unknown h = refl

not_true : ¬ (false ≡ true)
not_true e = cc

module _ (ext : Text) where
  abbrev is_metadata : Bool
  is_metadata = ext == codes "xmp" || ext == codes "phos"

  metadata-sidecar : is_metadata ≡ true → (ext == codes "sidecar") ≡ false
  unfolding text_eq
  metadata-sidecar h = elim (Bool-cases (ext == codes "sidecar")) [
    | inr b ↦ b
    | inl b ↦ absurd (
        not_true (
          subst (λ x. (x == codes "xmp" || x == codes "phos") ≡ true)
            ((text_eq_iff ext (codes "sidecar")).0 b) h))
  ]

  raw_score : is_metadata ≡ true → (a : Asset) → is_raw a ≡ at_least ext 3 a
  unfolding score
  raw_score h a = ground (arith, h, metadata-sidecar h, still-video a)

  still_score : is_metadata ≡ true → (a : Asset) → is_kind still a ≡ at_least ext 2 a
  unfolding score
  still_score h a = ground (arith, h, metadata-sidecar h, still-video a)

  any_score :
      is_metadata ≡ true → (a : Asset) → at_least ext 1 a ≡ (is_kind still a || is_kind video a)
  unfolding score
  any_score h a = ground (arith, h, metadata-sidecar h, still-video a)

  video_score : is_metadata ≡ false → (a : Asset) → is_kind video a ≡ at_least ext 1 a
  unfolding score
  video_score h a = ground (arith, h)

  -- Above a score of 1 there are only the videos that a .sidecar goes with.
  high_score :
      (k : ℕ)
      → 2 ≤ k
      → k ≤ 3
      → is_metadata ≡ false
      → (ext == codes "sidecar") ≡ true
      → (a : Asset) → is_kind video a ≡ at_least ext k a
  unfolding score
  high_score k l m h t a = ground (arith, l, m, h, t)

  no_score :
      (k : ℕ)
      → 2 ≤ k
      → is_metadata ≡ false
      → (ext == codes "sidecar") ≡ false
      → (a : Asset) → at_least ext k a ≡ false
  unfolding score
  no_score k l h t a = ground (arith, l, h, t)

  module _ (c : Asset) (cs : List Asset) where
    metadata_wishes :
        is_metadata ≡ true
        → first_wish (is_raw ∷ is_kind still ∷ is_kind video ∷ []) c cs
          ≡ first_wish (at_least ext 3 ∷ at_least ext 2 ∷ at_least ext 1 ∷ []) c cs
    metadata_wishes h =
        let raw = first-same is_raw (at_least ext 3) (raw_score h) (c ∷ cs) in
        let stills = first-same (is_kind still) (at_least ext 2) (still_score h) (c ∷ cs) in
        elim (Option-cases (first (is_kind still) (c ∷ cs))) [
          | inl n ↦
              let videos =
                first-or (is_kind video) (is_kind still) (at_least ext 1) (any_score h) (c ∷ cs)
                  n in
              ap
                (λ (o : Option Asset × Option Asset × Option Asset).
                  or_next o.0 (or_next o.1 (or_next o.2 c)))
                (ap
                    (λ (x : Option Asset).
                      (x, first (is_kind still) (c ∷ cs), first (is_kind video) (c ∷ cs)))
                    raw
                  ∙ ap
                      (λ (x : Option Asset).
                        (first (at_least ext 3) (c ∷ cs), x, first (is_kind video) (c ∷ cs)))
                      stills
                  ∙ ap
                      (λ (x : Option Asset).
                        (first (at_least ext 3) (c ∷ cs), first (at_least ext 2) (c ∷ cs), x))
                      (sym videos))
          | inr (a, n) ↦
              ap
                (λ (x : Option Asset). or_next x (
                  or_next (first (is_kind still) (c ∷ cs))
                    (or_next (first (is_kind video) (c ∷ cs)) c)))
                raw
              ∙ ap
                  (λ (x : Option Asset).
                    or_next (first (at_least ext 3) (c ∷ cs))
                      (or_next x (or_next (first (is_kind video) (c ∷ cs)) c)))
                  stills
              ∙ ap (or_next (first (at_least ext 3) (c ∷ cs)))
                  (found_anyway _ a _ _ (sym stills ∙ n))
        ]

    other_wishes :
        is_metadata ≡ false
        → first_wish (is_kind video ∷ []) c cs
          ≡ first_wish (at_least ext 3 ∷ at_least ext 2 ∷ at_least ext 1 ∷ []) c cs
    other_wishes h = elim (Bool-cases (ext == codes "sidecar")) [
      | inl t ↦
          let third =
            first-same (is_kind video) (at_least ext 3)
              (high_score 3 (omega arith) (omega arith) h t) (c ∷ cs) in
          let second =
            first-same (is_kind video) (at_least ext 2)
              (high_score 2 (omega arith) (omega arith) h t) (c ∷ cs) in
          let one = first-same (is_kind video) (at_least ext 1) (video_score h) (c ∷ cs) in
          rw (sym third)
            (rw (sym second) (rw (sym one) (same_thrice (first (is_kind video) (c ∷ cs)) c)))
      | inr t ↦
          let third = first-never (at_least ext 3) (no_score 3 (omega arith) h t) (c ∷ cs) in
          let second = first-never (at_least ext 2) (no_score 2 (omega arith) h t) (c ∷ cs) in
          let one = first-same (is_kind video) (at_least ext 1) (video_score h) (c ∷ cs) in
          rw third (rw second (rw one refl))
    ]

-- The preferred owner of a companion is the first candidate that passes the first test that any
-- candidate passes, or else the first candidate. For .xmp and .phos the tests are: a still that
-- is no JPEG or HEIF, a still, a video. For every other extension, .sidecar included, the test
-- is: a video.
pub preferred_owner-first_wish :
    (c : Asset) (cs : List Asset) (ext : Text)
    → preferred_owner c cs ext ≡ first_wish (wishes ext) c cs
unfolding preferred_owner
preferred_owner-first_wish c cs ext = elim (Bool-cases (is_metadata ext)) [
  | inl b ↦ rw b (sym (metadata_wishes ext c cs b ∙ by_score ext c cs))
  | inr b ↦ rw b (sym (other_wishes ext c cs b ∙ by_score ext c cs))
]
