-- ===== src/Naming/RoundTrip.antt =====
-- The identity is read back from a permanent name, and a permanent name is a fixed point.
use mediamanager.Base.{
  ◌≡◌, refl, sym, ap, ◌∙◌, subst, ◌≢◌, inl, inr, true, false, some, [], ◌∷◌, ◌++◌, arith,
  Bool-cases, Option-cases, length, Text, text_eq, text_eq_iff, contains, split_last, ◌==◌, ℕ_eq,
  Text_eq, ok,
}
use mediamanager.SlashPath.{dot}
use mediamanager.Clock.{is_zero, before}
use mediamanager.Identity
use mediamanager.Identity.{id_len, is_hex, all_hex, valid, full}
use mediamanager.Media.{Kind_eq, uses_sparse_id}
use mediamanager.Naming.{
  Asset, split_ext, join_ext, is_safe, sanitize, Parsed, parse_base, parse, name_base, strip_id,
  file_name,
}
use mediamanager.Naming.Split.{
  split_last-append, split_last-after, split_ext-join_ext, split_ext-lacks,
}
use mediamanager.Naming.Safe.{
  IsSafeName, sanitize-IsSafeName, sanitize_fixed, contains-sanitize, IsSafeName-append,
  all_hex-IsSafeName, all_hex-lacks,
}

valid-all_hex : (id : Text) → Identity.valid id ≡ true → all_hex id ≡ true
unfolding Identity.valid
valid-all_hex id h = ground arith

valid-length : (id : Text) → Identity.valid id ≡ true → length id ≡ Identity.id_len
unfolding Identity.valid
valid-length id h = ground arith

hex-lacks-dash : (id : Text) → Identity.valid id ≡ true → contains id b'-' ≡ false
unfolding Identity.is_hex
hex-lacks-dash id v = all_hex-lacks b'-' id refl (valid-all_hex id v)

parse_base-append :
    (b id e : Text)
    → b ≢ []
    → Identity.valid id ≡ true
    → parse_base (b ++ (b'-' ∷ id)) e ≡ some (record { base = b; id = id; ext = e })
unfolding parse_base
parse_base-append [] id e k v = absurd (k refl)
parse_base-append (c ∷ b) id e k v =
    ground (arith, split_last-append b'-' (c ∷ b) id (hex-lacks-dash id v), valid-length id v)

append-ne-nil : (b t : Text) → b ≢ [] → b ++ t ≢ []
append-ne-nil [] t k = absurd (k refl)
append-ne-nil (c ∷ b) t k = λ e. cc

-- Parse undoes the join of a base, a valid identity and an extension without a dot.
parse-join_ext :
    (b id e : Text)
    → b ≢ []
    → e ≢ []
    → Identity.valid id ≡ true
    → contains e dot ≡ false
    → parse (join_ext (b ++ (b'-' ∷ id)) e) ≡ some (record { base = b; id = id; ext = e })
unfolding parse
parse-join_ext b id e k l v h =
    rw (split_ext-join_ext (b ++ (b'-' ∷ id)) e (append-ne-nil b _ k) l h)
      (parse_base-append b id e k v)

-- The parts of a name that Parse accepts.
parse_base-parts :
    (b e : Text) (p : Parsed)
    → parse_base b e ≡ some p
    → (p.base ≢ []) × (b ≡ p.base ++ (b'-' ∷ p.id)) × (p.ext ≡ e) × (Identity.valid p.id ≡ true)
unfolding parse_base
parse_base-parts b e p h = elim (Option-cases (split_last b'-' b)) [
  | inl q ↦ ground arith
  | inr (([], id), q) ↦ ground arith
  | inr ((c ∷ before, id), q) ↦
      let parts = split_last-after b'-' b (c ∷ before) id q in ground (arith, parts)
]

-- The base that is suffixed is never empty.
name_base-ne-nil : (s : Text) → name_base s ≢ []
unfolding name_base text_eq
name_base-ne-nil [] = λ e. cc
name_base-ne-nil (c ∷ s) = λ e. cc

name_base-IsSafeName : (s : Text) → IsSafeName s → IsSafeName (name_base s)
unfolding name_base text_eq is_safe
name_base-IsSafeName [] h = (refl, (refl, (refl, (refl, tt))))
name_base-IsSafeName (c ∷ s) h = h

name_base_fixed : (s : Text) → s ≢ [] → name_base s ≡ s
unfolding name_base text_eq
name_base_fixed [] k = absurd (k refl)
name_base_fixed (c ∷ s) k = refl

IsSafeName-append_left : (s t : Text) → IsSafeName (s ++ t) → IsSafeName s
IsSafeName-append_left [] t h = tt
IsSafeName-append_left (c ∷ s) t h = (h.0, IsSafeName-append_left s t h.1)

-- What is left of a base when it carries the identity already.
strip_id-parts :
    (id b e : Text)
    → b ≢ []
    → e ≢ []
    → contains e dot ≡ false
    → IsSafeName b
    → (strip_id id b e ≢ []) × IsSafeName (strip_id id b e)
unfolding strip_id parse
strip_id-parts id b e k l h s = elim (Option-cases (parse_base b e)) [
  | inl q ↦ rw (split_ext-join_ext b e k l h, q, strip_id) (k, s)
  | inr (p, q) ↦
      let parts = parse_base-parts b e p q in
      elim (Bool-cases (p.id == id)) [
        | inl t ↦
            rw (split_ext-join_ext b e k l h, q, strip_id, t)
              (parts.0, IsSafeName-append_left p.base _ (subst IsSafeName parts.1 s))
        | inr f ↦ rw (split_ext-join_ext b e k l h, q, strip_id, f) (k, s)
      ]
]

stem_id-IsSafeName :
    (s id : Text) → IsSafeName s → Identity.valid id ≡ true → IsSafeName (s ++ (b'-' ∷ id))
unfolding is_safe
stem_id-IsSafeName s id h v =
    IsSafeName-append s _ h (refl, all_hex-IsSafeName id (valid-all_hex id v))

-- A base that carries the identity loses it.
strip_id-append :
    (b id e : Text)
    → b ≢ []
    → e ≢ []
    → Identity.valid id ≡ true
    → contains e dot ≡ false
    → strip_id id (b ++ (b'-' ∷ id)) e ≡ b
unfolding strip_id
strip_id-append b id e k l v h =
    rw (parse-join_ext b id e k l v h, strip_id) (ground (arith, text_eq_iff id id))

-- The base and the extension that FileName works with.
abbrev pub base_of : Asset → Text
base_of a = name_base (sanitize (split_ext a.orig_name).0)

abbrev pub ext_of : Asset → Text
ext_of a = sanitize (split_ext a.orig_name).1

-- FileName on a kind with a sparse identity: the name, and what was checked.
file_name-sparse :
    (a : Asset) (n : Text)
    → uses_sparse_id a.kind ≡ true
    → file_name a ≡ ok n
    → (Identity.valid a.id ≡ true)
      × (n ≡ join_ext (strip_id a.id (base_of a) (ext_of a) ++ (b'-' ∷ a.id)) (ext_of a))
      × (is_zero a.capture_time ≡ false)
unfolding file_name
file_name-sparse a n u h = ground arith

file_name-eq-ok :
    (a : Asset)
    → uses_sparse_id a.kind ≡ true
    → a.orig_name ≢ []
    → is_zero a.capture_time ≡ false
    → Identity.valid a.id ≡ true
    → file_name a ≡ ok (join_ext (strip_id a.id (base_of a) (ext_of a) ++ (b'-' ∷ a.id)) (ext_of a))
unfolding file_name
file_name-eq-ok a u k z v = ground (arith, text_eq_iff a.orig_name [])

join_ext-ne-nil : (b e : Text) → b ≢ [] → join_ext b e ≢ []
unfolding join_ext
join_ext-ne-nil b [] k = k
join_ext-ne-nil b (c ∷ e) k = append-ne-nil b _ k

sanitize-ne-nil : (s : Text) → s ≢ [] → sanitize s ≢ []
unfolding sanitize
sanitize-ne-nil [] k = absurd (k refl)
sanitize-ne-nil (c ∷ s) k = λ e. cc

ext_of-lacks : (a : Asset) → contains (ext_of a) dot ≡ false
ext_of-lacks a = contains-sanitize _ ∙ split_ext-lacks a.orig_name

module _ (a : Asset) (n : Text) (u : uses_sparse_id a.kind ≡ true)
    (x : (split_ext a.orig_name).1 ≢ []) (h : file_name a ≡ ok n) where
  stem_parts :
      (strip_id a.id (base_of a) (ext_of a) ≢ [])
      × IsSafeName (strip_id a.id (base_of a) (ext_of a))
  stem_parts =
      strip_id-parts a.id (base_of a) (ext_of a) (name_base-ne-nil _) (sanitize-ne-nil _ x)
        (ext_of-lacks a) (name_base-IsSafeName _ (sanitize-IsSafeName _))

  -- For a video or audio file with an extension, Parse recovers from the permanent name that
  -- FileName gave the identity, the sanitised extension, and a base of safe characters.
  pub parse-file_name :
      (p : Parsed) × (parse n ≡ some p)
      × (p.id ≡ a.id)
      × (p.ext ≡ sanitize (split_ext a.orig_name).1)
      × IsSafeName p.base
  parse-file_name =
      let made = file_name-sparse a n u h in
      (
        record { base = strip_id a.id (base_of a) (ext_of a); id = a.id; ext = ext_of a },
        rw made.1
            (parse-join_ext _ a.id _ stem_parts.0 (sanitize-ne-nil _ x) made.0 (ext_of-lacks a)),
        refl,
        refl,
        stem_parts.1,
      )

  -- Giving the permanent name of a video or audio file with an extension as the original name
  -- yields that same name: a file copied verbatim from a spool is not given a second suffix.
  pub file_name_idem : file_name (record a { orig_name = n }) ≡ ok n
  file_name_idem =
      let made = file_name-sparse a n u h in
      let S = strip_id a.id (base_of a) (ext_of a) in
      let E = ext_of a in
      let a' : Asset = record a { orig_name = n } in
      let full : S ++ (b'-' ∷ a.id) ≢ [] = append-ne-nil S _ stem_parts.0 in
      let cut : split_ext n ≡ (S ++ (b'-' ∷ a.id), E) =
        ap split_ext made.1 ∙ split_ext-join_ext _ _ full (sanitize-ne-nil _ x) (ext_of-lacks a) in
      let stem : base_of a' ≡ S ++ (b'-' ∷ a.id) = rw cut (
        rw (sanitize_fixed _ (stem_id-IsSafeName S a.id stem_parts.1 made.0))
          (name_base_fixed _ full)) in
      let same_ext : ext_of a' ≡ E = rw cut (sanitize_fixed E (sanitize-IsSafeName _)) in
      file_name-eq-ok a' u (λ e. join_ext-ne-nil _ _ full (sym made.1 ∙ e)) made.2 made.0
      ∙ rw
          (
            stem,
            same_ext,
            strip_id-append S a.id E stem_parts.0 (sanitize-ne-nil _ x) made.0 (ext_of-lacks a),
          )
          (ap ok (sym made.1))
