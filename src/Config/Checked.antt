-- ===== src/Config/Checked.antt =====
-- What Parse of config/config.go has checked of the settings it returns.
use mediamanager.Base.Sorting.{insert, sort, In-sort, sort-In}
use mediamanager.Base.{
  ◌≡◌, refl, ap, ◌∙◌, subst, ◌≢◌, ◌⊎◌, inl, inr, true, false, ◌&&◌, not, List, [], ◌∷◌, arith,
  Bool-cases, is_empty, any, In, any-In, Text, codes, text_eq_iff, contains, ◌==◌, ℕ_eq, Text_eq,
  Pair_eq, ok, >>=-eq-ok, Result-cases, if-err,
}
use mediamanager.Media.{unknown, kind_eq_iff, Kind_eq}
use mediamanager.SlashPath.{is_abs}
use mediamanager.Table.{Absent, Distinct}
use mediamanager.Config.{
  Tree, Location, Config, Env, kind_of, serves, expand, zone_ok, with_defaults, finish_tree,
  finish_trees, check_entries, finish_location, finish_locations, check_served, priority_ltb,
  finish,
}

-- A tree's name is a kind, its subdirectory is one directory, and its link tree is absolute.
pub record TreeIsValid (t : Text × Tree) : Type 0 where
  pub known : kind_of t.0 ≢ unknown
  pub one_directory : contains t.1.subdir 47 ≡ false
  pub absolute : is_abs t.1.link ≡ true

-- A location is a spool or a NAS. Its path is absolute just if it names no volume, and the trees it
-- names are configured.
pub record LocationIsValid (trees : List (Text × Tree)) (l : Location) : Type 0 where
  pub named : l.name ≢ []
  pub kind_known : (l.kind ≡ codes "spool") ⊎ (l.kind ≡ codes "nas")
  pub rooted : is_abs l.path ≡ (l.volume_uuid == [])
  pub trees_known :
      (t : Text)
      → In t l.trees
      → (kind_of t ≢ unknown) × ((u : Text × Tree) × In u trees × (u.0 ≡ t))

pub record IsValid (c : Config) : Type 0 where
  pub trees_valid : (t : Text × Tree) → In t c.trees → TreeIsValid t
  pub locations_valid : (l : Location) → In l c.locations → LocationIsValid c.trees l
  pub names_distinct : Distinct (λ (l : Location). l.name) c.locations
  pub served :
      (t : Text × Tree)
      → In t c.trees
      → (l : Location) × In l c.locations × (l.kind ≡ codes "nas") × (serves l (kind_of t.0) ≡ true)

finish_tree-TreeIsValid : (env : Env) (t u : Text × Tree) → finish_tree env t ≡ ok u → TreeIsValid u
unfolding finish_tree
finish_tree-TreeIsValid env (n, t) (m, u) q = record {
  known = ground (arith, kind_eq_iff (kind_of n) unknown);
  one_directory = ground arith;
  absolute = ground arith;
}

finish_trees-valid :
    (env : Env) (ts us : List (Text × Tree))
    → finish_trees env ts ≡ ok us
    → (u : Text × Tree) → In u us
    → TreeIsValid u
unfolding finish_trees
finish_trees-valid env [] [] q u m = absurd m
finish_trees-valid env [] (v ∷ vs) q u m = cc
finish_trees-valid env (t ∷ ts) [] q u m = absurd m
finish_trees-valid env (t ∷ ts) (w ∷ ws) q u m =
    let (v, e, r) = >>=-eq-ok (finish_tree env t) _ q in
    let (vs, f, g) = >>=-eq-ok (finish_trees env ts) _ r in
    elim m [
      | inl p ↦ finish_tree-TreeIsValid env t u (e ∙ ap ok (cc))
      | inr m ↦ finish_trees-valid env ts ws (f ∙ ap ok (cc)) u m
    ]

check_entries-known :
    (trees : List (Text × Tree)) (ts : List Text)
    → check_entries trees ts ≡ ok tt
    → (t : Text) → In t ts
    → (kind_of t ≢ unknown) × ((u : Text × Tree) × In u trees × (u.0 ≡ t))
unfolding check_entries
check_entries-known trees [] q t m = absurd m
check_entries-known trees (s ∷ ts) q t m =
    elim (Bool-cases (any (λ (u : Text × Tree). u.0 == s) trees)) [
      | inr b ↦ ground (arith, b)
      | inl b ↦
          let (u, i, e) = any-In (λ (u : Text × Tree). u.0 == s) trees b in
          let k : kind_of s ≢ unknown = λ z. ground (arith, kind_eq_iff (kind_of s) unknown) in
          elim m [
            | inl p ↦
                subst (λ x. (kind_of x ≢ unknown) × ((u : Text × Tree) × In u trees × (u.0 ≡ x))) p
                  (k, (u, i, ground (arith, text_eq_iff u.0 s)))
            | inr m ↦
                check_entries-known trees ts (ground (arith, kind_eq_iff (kind_of s) unknown)) t m
          ]
    ]

finish_location-valid :
    (env : Env) (trees : List (Text × Tree)) (seen : List Text) (l m : Location)
    → finish_location env trees seen l ≡ ok m
    → LocationIsValid trees m × (any (λ n. n == m.name) seen ≡ false) × (m.name ≡ l.name)
unfolding finish_location
finish_location-valid env trees seen l m q = elim (Result-cases (check_entries trees l.trees)) [
  | inr (e, z) ↦ ground (arith, z)
  | inl (u, z) ↦
      let new : any (λ n. n == l.name) seen ≡ false =
        (elim (Bool-cases (any (λ n. n == l.name) seen)) [
          | inl b ↦ ground (arith, z, b)
          | inr b ↦ b
        ]) in
      let same : (record l { path = expand env l.path }) ≡ m = ground (arith, z) in
      subst
        (λ x. LocationIsValid trees x × (any (λ n. n == x.name) seen ≡ false) × (x.name ≡ l.name))
        same
        (
          record {
            named = λ n. ground (arith, text_eq_iff l.name []);
            kind_known =
                ground
                  (arith, text_eq_iff l.kind (codes "spool"), text_eq_iff l.kind (codes "nas"));
            rooted = ground (arith);
            trees_known = check_entries-known trees l.trees z;
          },
          new,
          refl,
        )
]

finish_locations-valid :
    (env : Env) (trees : List (Text × Tree)) (seen : List Text) (ls ms : List Location)
    → finish_locations env trees seen ls ≡ ok ms
    → ((m : Location) → In m ms → LocationIsValid trees m × (any (λ n. n == m.name) seen ≡ false))
      × Distinct (λ (l : Location). l.name) ms
unfolding finish_locations
finish_locations-valid env trees seen [] [] q = ((λ m i. absurd i), tt)
finish_locations-valid env trees seen [] (m ∷ ms) q = cc
finish_locations-valid env trees seen (l ∷ ls) [] q =
    let (v, e, r) = >>=-eq-ok (finish_location env trees seen l) _ q in
    let (vs, f, g) = >>=-eq-ok (finish_locations env trees (l.name ∷ seen) ls) _ r in cc
finish_locations-valid env trees seen (l ∷ ls) (m ∷ ms) q =
    let (v, e, r) = >>=-eq-ok (finish_location env trees seen l) _ q in
    let (vs, f, g) = >>=-eq-ok (finish_locations env trees (l.name ∷ seen) ls) _ r in
    let here = finish_location-valid env trees seen l m (e ∙ ap ok cc) in
    let rest = finish_locations-valid env trees (l.name ∷ seen) ls ms (f ∙ ap ok cc) in
    (
      (λ n i. elim i [
        | inl p ↦
            subst (λ x. LocationIsValid trees x × (any (λ n. n == x.name) seen ≡ false)) p
              (here.0, here.1)
        | inr j ↦ ((rest.0 n j).0, ground (arith, (rest.0 n j).1))
      ]),
      (
        absent m.name ms (λ n j.
            ground (
              arith,
              (rest.0 n j).1,
              here.2,
              text_eq_iff n.name m.name,
              text_eq_iff l.name n.name,
            )),
        rest.1,
      ),
    )
  where
    absent :
        (k : Text) (ns : List Location)
        → ((n : Location) → In n ns → (n.name == k) ≡ false)
        → Absent (λ (l : Location). l.name) k ns
    absent k [] h = tt
    absent k (n ∷ ns) h = (h n (inl refl), absent k ns λ o j. h o (inr j))

check_served-served :
    (ls : List Location) (ts : List (Text × Tree))
    → check_served ls ts ≡ ok tt
    → (t : Text × Tree) → In t ts
    → (l : Location) × In l ls × (l.kind ≡ codes "nas") × (serves l (kind_of t.0) ≡ true)
unfolding check_served
check_served-served ls [] q t m = absurd m
check_served-served ls (s ∷ ts) q t m =
    elim (Bool-cases (any (λ (l : Location). serves l (kind_of s.0) && l.kind == codes "nas") ls)) [
      | inr b ↦ ground (arith, b)
      | inl b ↦
          let (l, i, e) =
            any-In (λ (l : Location). serves l (kind_of s.0) && l.kind == codes "nas") ls b in
          elim m [
            | inl p ↦
                subst
                  (λ (x : Text × Tree).
                    (l : Location) × In l ls
                    × (l.kind ≡ codes "nas")
                    × (serves l (kind_of x.0) ≡ true))
                  p (l, i, ground (arith, e, text_eq_iff l.kind (codes "nas")), ground (arith, e))
            | inr m ↦ check_served-served ls ts (ground (arith, b)) t m
          ]
    ]

-- Sorting keeps the names apart.
Absent-insert :
    (k : Text) (x : Location) (ys : List Location)
    → (x.name == k) ≡ false
    → Absent (λ (l : Location). l.name) k ys
    → Absent (λ (l : Location). l.name) k (insert priority_ltb x ys)
unfolding insert
Absent-insert k x [] h a = (h, tt)
Absent-insert k x (y ∷ ys) h a = elim (Bool-cases (priority_ltb y x)) [
  | inl q ↦ rw q (a.0, Absent-insert k x ys h a.1)
  | inr q ↦ rw q (h, a)
]

Distinct-insert :
    (x : Location) (ys : List Location)
    → Absent (λ (l : Location). l.name) x.name ys
    → Distinct (λ (l : Location). l.name) ys
    → Distinct (λ (l : Location). l.name) (insert priority_ltb x ys)
unfolding insert
Distinct-insert x [] a d = (tt, tt)
Distinct-insert x (y ∷ ys) a d = elim (Bool-cases (priority_ltb y x)) [
  | inl q ↦ rw q (
    Absent-insert y.name x ys
        (ground (arith, a.0, text_eq_iff x.name y.name, text_eq_iff y.name x.name)) d.0,
    Distinct-insert x ys a.1 d.1,
  )
  | inr q ↦ rw q (a, d)
]

Absent-sort :
    (k : Text) (ys : List Location)
    → Absent (λ (l : Location). l.name) k ys
    → Absent (λ (l : Location). l.name) k (sort priority_ltb ys)
unfolding sort
Absent-sort k [] a = tt
Absent-sort k (y ∷ ys) a = Absent-insert k y (sort priority_ltb ys) a.0 (Absent-sort k ys a.1)

Distinct-sort :
    (ys : List Location)
    → Distinct (λ (l : Location). l.name) ys
    → Distinct (λ (l : Location). l.name) (sort priority_ltb ys)
unfolding sort
Distinct-sort [] d = tt
Distinct-sort (y ∷ ys) d =
    Distinct-insert y (sort priority_ltb ys) (Absent-sort y.name ys d.0) (Distinct-sort ys d.1)

-- Settings that are accepted are valid: every tree is of a known kind with an absolute link tree
-- and a NAS that serves it, and the locations have names of their own, a path that is absolute
-- just if they name no volume, and configured trees.
pub finish-IsValid : (env : Env) (given c : Config) → finish env given ≡ ok c → IsValid c
unfolding finish
finish-IsValid env given c q =
    let d = with_defaults env given in
    let q1 = if-err (not (zone_ok env d)) _ _ q in
    let q2 = if-err (is_empty d.trees) _ _ q1 in
    let (ts, a, q3) = >>=-eq-ok (finish_trees env d.trees) _ q2 in
    let q4 = if-err (is_empty d.locations) _ _ q3 in
    let (ls, b, q5) = >>=-eq-ok (finish_locations env ts [] d.locations) _ q4 in
    let (u, s, q6) = >>=-eq-ok (check_served ls ts) _ q5 in
    let valid = finish_locations-valid env ts [] d.locations ls b in
    let same : (record d { trees = ts; locations = sort priority_ltb ls }) ≡ c = cc in
    subst IsValid same (record {
      trees_valid = finish_trees-valid env d.trees ts a;
      locations_valid = λ l i. (valid.0 l (In-sort priority_ltb l ls i)).0;
      names_distinct = Distinct-sort ls valid.1;
      served = λ t i.
          let (l, j, k, r) = check_served-served ls ts s t i in
          (l, sort-In priority_ltb l ls j, k, r);
    })
