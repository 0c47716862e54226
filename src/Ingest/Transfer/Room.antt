-- ===== src/Ingest/Transfer/Room.antt =====
-- The spool that Spool of ingest/steps.go copies to.
use mediamanager.Base.{
  ℕ, ◌+◌, ◌≤◌, ◌<◌, ◌≡◌, refl, ap, subst, ◌⊎◌, inl, inr, Bool, true, false, ◌&&◌, some, List, [],
  ◌∷◌, ◌++◌, arith, leb, Bool-cases, Option-cases, All, ℕ_eq, Text_eq, Pair_eq, ◌==◌, err, ok,
}
use mediamanager.Ingest.Env.{Env, Place}
use mediamanager.Ingest.Transfer.{spool_margin, pick_spool, spool_full}
use mediamanager.Identity
use mediamanager.Config.{serves}
use mediamanager.Catalog.{spool, LocationKind_eq, Asset, CopyState_eq, Role_eq}

-- A mounted spool that serves the kind of the asset.
abbrev pub is_candidate : Asset → Place → Bool
is_candidate a p = p.mounted && p.cat.kind == spool && serves p.cfg a.kind

-- It has room for the asset and the margin.
pub record HasRoom (env : Env) (a : Asset) (p : Place) : Type 0 where
  pub candidate : is_candidate a p ≡ true
  pub free : ℕ
  pub told : env.free_space p.root ≡ some free
  pub enough : a.size + spool_margin ≤ free

-- It is no candidate, or its free space is known and too small.
pub record Lacks (env : Env) (a : Asset) (p : Place) : Type 0 where
  pub why :
      (is_candidate a p ≡ false)
      ⊎ ((free : ℕ) × (env.free_space p.root ≡ some free) × (free < a.size + spool_margin))

-- The place picked, and those before it, which are passed by.
pub record FirstRoom (env : Env) (a : Asset) (ps : List Place) (p : Place) : Type 0 where
  pub before : List Place
  pub after : List Place
  pub here : ps ≡ before ++ (p ∷ after)
  pub room : HasRoom env a p
  pub passed : All (Lacks env a) before

module _ (sha256 : Identity.Bytes → Identity.Bytes) (env : Env) (a : Asset) where
  pass :
      (p q : Place) (ps : List Place)
      → Lacks env a q
      → FirstRoom env a ps p
      → FirstRoom env a (q ∷ ps) p
  pass p q ps l f = record {
    before = q ∷ f.before;
    after = f.after;
    here = ap (◌∷◌ q) f.here;
    room = f.room;
    passed = (l, f.passed);
  }

  -- Spool copies to the first mounted spool that serves the kind of the asset and has room for
  -- it and the margin: every place before it is no such spool, or its free space is known and
  -- too small.
  pub pick_spool-FirstRoom :
      (ps : List Place) (p : Place) → pick_spool sha256 env a ps ≡ ok p → FirstRoom env a ps p
  unfolding pick_spool
  pick_spool-FirstRoom [] p q = cc
  pick_spool-FirstRoom (x ∷ ps) p q = elim (Bool-cases (is_candidate a x)) [
    | inr b ↦
        pass p x ps (record { why = inl b })
          (pick_spool-FirstRoom ps p
            (ground (arith, q, b, Bool-cases x.mounted, Bool-cases (x.cat.kind == spool))))
    | inl b ↦ elim (Option-cases (env.free_space x.root)) [
      | inl n ↦ absurd (ground (arith, q, b, n))
      | inr (free, n) ↦ elim (Bool-cases (leb (a.size + spool_margin) free)) [
        | inr c ↦
            pass p x ps (record { why = inr (free, n, ground (arith, c)) })
              (pick_spool-FirstRoom ps p (ground (arith, q, b, n, c)))
        | inl c ↦
            let same : x ≡ p = ground (arith, q, b, n, c) in
            subst (FirstRoom env a (x ∷ ps)) same (record {
              before = [];
              after = ps;
              here = refl;
              room = record { candidate = b; free = free; told = n; enough = ground (arith, c) };
              passed = tt;
            })
      ]
    ]
  ]

  -- ErrSpoolFull is returned only when no mounted spool that serves the kind has the room.
  pub pick_spool-spool_full :
      (ps : List Place) → pick_spool sha256 env a ps ≡ err spool_full → All (Lacks env a) ps
  unfolding pick_spool
  pick_spool-spool_full [] q = tt
  pick_spool-spool_full (x ∷ ps) q = elim (Bool-cases (is_candidate a x)) [
    | inr b ↦ (record { why = inl b }, pick_spool-spool_full ps (ground (arith, q, b)))
    | inl b ↦ elim (Option-cases (env.free_space x.root)) [
      | inl n ↦ absurd (ground (arith, q, b, n))
      | inr (free, n) ↦ elim (Bool-cases (leb (a.size + spool_margin) free)) [
        | inl c ↦ absurd (ground (arith, q, b, n, c))
        | inr c ↦ (
          record { why = inr (free, n, ground (arith, c)) },
          pick_spool-spool_full ps (ground (arith, q, b, n, c)),
        )
      ]
    ]
  ]
