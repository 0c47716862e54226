-- ===== src/Linktree/Choice.antt =====
-- Which copy Choose of linktree/linktree.go picks from what Copies of catalog/catalog.go returns.
use mediamanager.Catalog.Copies.Joined.{copies-Ascends}
use mediamanager.Base.Sorting.{Ascends}
use mediamanager.Base.{
  ◌≤◌, ◌≡◌, refl, sym, subst, inl, inr, Option, some, List, [], ◌∷◌, arith, Bool-cases,
  Option-cases, In, All-In, Text, ◌==◌, ℕ_eq, Text_eq, Pair_eq,
}
use mediamanager.SlashPath
use mediamanager.Catalog.{
  LocationKind, source, spool, nas, LocationKind_eq, Location, complete, copy_state_eq_iff,
  CopyState_eq, JoinedCopy, Role_eq, Db,
}
use mediamanager.Catalog.Copies.{tier, nearer, copies}
use mediamanager.Linktree.{choose}

-- A copy that a link may point at, and where it is.
pub record Usable (root_of : Location → Option Text) (c : JoinedCopy) (target : Text) : Type 0 where
  pub is_complete : c.copy.state ≡ complete
  pub root : Text
  pub mounted : root_of c.location ≡ some root
  pub target_is : target ≡ SlashPath.join (root ∷ c.copy.rel_path ∷ [])

-- Spool is nearer than NAS, and NAS than source.
abbrev pub NotFarther : LocationKind → LocationKind → Type 0
NotFarther spool k = Unit
NotFarther nas spool = ⊥
NotFarther nas k = Unit
NotFarther source source = Unit
NotFarther source k = ⊥

tier-NotFarther : (k l : LocationKind) → tier k ≤ tier l → NotFarther k l
unfolding tier
tier-NotFarther spool l h = tt
tier-NotFarther nas spool h = omega arith
tier-NotFarther nas nas h = tt
tier-NotFarther nas source h = tt
tier-NotFarther source spool h = omega arith
tier-NotFarther source nas h = omega arith
tier-NotFarther source source h = tt

-- `c` is usable at `target`, and no usable copy is on a nearer tier.
pub record Nearest (root_of : Location → Option Text) (cs : List JoinedCopy) (target : Text)
    : Type 0 where
  pub chosen : JoinedCopy
  pub listed : In chosen cs
  pub usable : Usable root_of chosen target
  pub nearest :
      (d : JoinedCopy) (t : Text)
      → In d cs
      → Usable root_of d t
      → NotFarther chosen.location.kind d.location.kind

module _ (root_of : Location → Option Text) where
  abbrev Up : List JoinedCopy → Type 0
  Up = Ascends nearer (λ c. tier c.location.kind)

  -- A copy that is not usable may stand in front.
  skip :
      (c : JoinedCopy) (cs : List JoinedCopy) (target : Text)
      → ((t : Text) → ¬ Usable root_of c t)
      → Nearest root_of cs target
      → Nearest root_of (c ∷ cs) target
  skip c cs target n h = record {
    chosen = h.chosen;
    listed = inr h.listed;
    usable = h.usable;
    nearest = λ d t m u. elim m [
      | inl e ↦ absurd (n t (subst (λ x. Usable root_of x t) (sym e) u))
      | inr i ↦ h.nearest d t i u
    ];
  }

  pub choose-Nearest :
      (cs : List JoinedCopy) (target : Text)
      → Up cs
      → choose cs root_of ≡ some target
      → Nearest root_of cs target
  unfolding choose
  choose-Nearest [] target a q = cc
  choose-Nearest (c ∷ cs) target a q = elim (Bool-cases (c.copy.state == complete)) [
    | inr b ↦
        skip c cs target
          (λ t u. ground (arith, u.is_complete, b, copy_state_eq_iff c.copy.state complete))
          (choose-Nearest cs target a.1 (ground (arith, b)))
    | inl b ↦ elim (Option-cases (root_of c.location)) [
      | inl m ↦
          skip c cs target (λ t u. ground (arith, u.mounted, m))
            (choose-Nearest cs target a.1 (ground (arith, b, m)))
      | inr (root, m) ↦ record {
        chosen = c;
        listed = inl refl;
        usable = record {
          is_complete = ground (arith, b, copy_state_eq_iff c.copy.state complete);
          root = root;
          mounted = m;
          target_is = ground (arith, b, m);
        };
        nearest = λ d t i u. elim i [
          | inl e ↦
              subst (λ (x : JoinedCopy). NotFarther c.location.kind x.location.kind) e
                (tier-NotFarther c.location.kind c.location.kind (omega arith))
          | inr j ↦
              tier-NotFarther c.location.kind d.location.kind
                (All-In (λ (x : JoinedCopy). tier c.location.kind ≤ tier x.location.kind) cs a.0 j)
        ];
      }
    ]
  ]

-- The target that Choose picks from the copies of an asset is a complete copy on a mounted
-- location, and no complete copy on a mounted location is of a nearer kind: a spool is nearer
-- than a NAS, and a NAS than a source.
pub choose-copies :
    (db : Db) (id : Text) (root_of : Location → Option Text) (target : Text)
    → choose (copies db id) root_of ≡ some target
    → Nearest root_of (copies db id) target
choose-copies db id root_of target q =
    choose-Nearest root_of (copies db id) target (copies-Ascends db id) q
