-- ===== src/Ingest/Pick.antt =====
-- The pair of copies that pickFlushPair of ingest/steps.go picks.
use mediamanager.Base.{
  ℕ, ◌≡◌, refl, subst, ◌≢◌, inl, inr, Option, none, some, List, [], ◌∷◌, arith, Bool-cases, In,
  Text, ℕ_eq, Text_eq, Pair_eq, ◌==◌, ok,
}
use mediamanager.Media.{Kind_eq}
use mediamanager.Catalog.{
  nas, location_kind_eq_iff, LocationKind_eq, Location, complete, copy_state_eq_iff, CopyState_eq,
  JoinedCopy, Role_eq,
}
use mediamanager.Ingest.{pick_step, pick_all, picked, pick_flush_pair}

-- The copy on the spool is recorded as complete.
pub record IsSpoolCopy (cs : List JoinedCopy) (spool_id : ℕ) (c : JoinedCopy) : Type 0 where
  pub listed : In c cs
  pub is_complete : c.copy.state ≡ complete
  pub on_spool : c.copy.location_id ≡ spool_id

-- The other, which is not on the spool, is recorded as complete on a mounted NAS.
pub record IsNasCopy (cs : List JoinedCopy) (spool_id : ℕ) (root_of : Location → Option Text)
    (c : JoinedCopy) : Type 0 where
  pub listed : In c cs
  pub is_complete : c.copy.state ≡ complete
  pub on_nas : c.location.kind ≡ nas
  pub apart : c.copy.location_id ≢ spool_id
  pub root : Text
  pub mounted : root_of c.location ≡ some root

module _ (spool_id : ℕ) (root_of : Location → Option Text) where
  abbrev GoodSpool : List JoinedCopy → Option JoinedCopy → Type 0
  GoodSpool cs none = Unit
  GoodSpool cs (some c) = IsSpoolCopy cs spool_id c

  abbrev GoodNas : List JoinedCopy → Option JoinedCopy → Type 0
  GoodNas cs none = Unit
  GoodNas cs (some c) = IsNasCopy cs spool_id root_of c

  Good : List JoinedCopy → Option JoinedCopy × Option JoinedCopy → Type 0
  Good cs p = GoodSpool cs p.0 × GoodNas cs p.1

  pick_step-Good :
      (cs : List JoinedCopy) (p : Option JoinedCopy × Option JoinedCopy) (c : JoinedCopy)
      → In c cs
      → Good cs p
      → Good cs (pick_step spool_id root_of p c)
  unfolding pick_step Good
  pick_step-Good cs (s, n) c m g = elim (Bool-cases (c.copy.state == complete)) [
    | inr b ↦ rw b g
    | inl b ↦ elim (Bool-cases (c.copy.location_id == spool_id)) [
      | inl d ↦
          rw (b, d)
            (
              record {
                listed = m;
                is_complete = (copy_state_eq_iff c.copy.state complete).0 b;
                on_spool = ground (arith, d);
              },
              g.1,
            )
      | inr d ↦ elim (Bool-cases (c.location.kind == nas)) [
        | inr k ↦ rw (b, d, k) g
        | inl k ↦
            rw (b, d, k)
              (
                g.0,
                first_nas n (root_of c.location) refl
                    ((copy_state_eq_iff c.copy.state complete).0 b)
                    ((location_kind_eq_iff c.location.kind nas).0 k) (ground (arith, d)) g.1,
              )
      ]
    ]
  ]
    where
      first_nas :
          (n : Option JoinedCopy) (o : Option Text)
          → root_of c.location ≡ o
          → c.copy.state ≡ complete
          → c.location.kind ≡ nas
          → c.copy.location_id ≢ spool_id
          → GoodNas cs n
          → GoodNas cs (elim n as (λ x. Option JoinedCopy) [
            | some d ↦ some d
            | none ↦ elim o as (λ x. Option JoinedCopy) [ none ↦ none | some r ↦ some c ]
          ])
      first_nas (some d) o q e k a h = h
      first_nas none none q e k a h = tt
      first_nas none (some r) q e k a h = record {
        listed = m;
        is_complete = e;
        on_nas = k;
        apart = a;
        root = r;
        mounted = q;
      }

  pick_all-Good :
      (all cs : List JoinedCopy) (p : Option JoinedCopy × Option JoinedCopy)
      → ((c : JoinedCopy) → In c cs → In c all)
      → Good all p
      → Good all (pick_all spool_id root_of p cs)
  unfolding pick_all
  pick_all-Good all [] p m g = g
  pick_all-Good all (c ∷ cs) p m g =
      pick_all-Good all cs (pick_step spool_id root_of p c) (λ d i. m d (inr i))
        (pick_step-Good all p c (m c (inl refl)) g)

  picked-Good :
      (all : List JoinedCopy) (p : Option JoinedCopy × Option JoinedCopy)
      (r : JoinedCopy × JoinedCopy)
      → Good all p
      → picked p ≡ ok r
      → IsSpoolCopy all spool_id r.0 × IsNasCopy all spool_id root_of r.1
  unfolding Good
  picked-Good all (none, n) r g q = cc
  picked-Good all (some s, none) r g q = cc
  picked-Good all (some s, some n) r g q =
      let same : (s, n) ≡ r = cc in
      subst
        (λ (x : JoinedCopy × JoinedCopy).
          IsSpoolCopy all spool_id x.0 × IsNasCopy all spool_id root_of x.1)
        same (g.0, g.1)

  pub pick_flush_pair-Good :
      (all : List JoinedCopy) (r : JoinedCopy × JoinedCopy)
      → pick_flush_pair all spool_id root_of ≡ ok r
      → IsSpoolCopy all spool_id r.0 × IsNasCopy all spool_id root_of r.1
  unfolding pick_flush_pair Good
  pick_flush_pair-Good all r q =
      picked-Good all (pick_all spool_id root_of (none, none) all) r
        (pick_all-Good all all (none, none) (λ c i. i) (tt, tt)) q
