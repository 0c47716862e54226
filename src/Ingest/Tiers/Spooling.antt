-- ===== src/Ingest/Tiers/Spooling.antt =====
-- Spool and Archive of ingest/steps.go make moves of the tiers, wherever they stop.

use mediamanager.Ingest.Kept.Steps.{sync_companions-Keeps}
use mediamanager.Base.Exec.{pure}
use mediamanager.Config.{serves}
use mediamanager.Ingest.{has_complete}
use mediamanager.Table.{Distinct}
use mediamanager.Base.{
  ℕ, ◌≡◌, refl, inl, inr, true, false, ◌&&◌, ◌||◌, not, Option, some, List, [], ◌∷◌, arith,
  Bool-cases, All, In, Text, ℕ_eq, Text_eq, Pair_eq, ◌==◌, Result, err, ok,
}
use mediamanager.Base.Exec.Keeps.{
  Post, Ensures, Keeps-pure, Keeps-Ensures, Keeps-bind, Ensures-bind, Ensures-weaken, Ensures-if,
}
use mediamanager.Ingest.Store.{Store, Failure}
use mediamanager.Ingest.Env.{Env, Place, place_id}
use mediamanager.Ingest.Kept.{On, on_files-Keeps}
use mediamanager.Ingest.Tiers.{Holding, with_copy, Moves, none_left, copied, Moves-trans, IsNasIn}
use mediamanager.Ingest.Tiers.Rows.{Stands}
use mediamanager.Ingest.Tiers.Copying.{IsCopied, After, Either, copy_to_ok}
use mediamanager.Ingest.Transfer.{CopyResult, copy_to, archive_at, archive_all}
use mediamanager.Linktree.{choose}
use mediamanager.Files
use mediamanager.Identity
use mediamanager.Catalog.{
  nas, LocationKind_eq, Location, Asset, complete, copy_state_eq_iff, CopyState_eq, JoinedCopy,
  Role_eq,
}

-- The store's copies are what some moves make of a holding.
pub record Reached (ls0 : List Location) (h : Holding) (s : Store) : Type 0 where
  pub now : Holding
  pub moves : Moves (IsNasIn ls0) h now
  pub stands : On (Stands ls0 now) s

pub Reached-here :
    (ls0 : List Location) (h : Holding) (s : Store) → On (Stands ls0 h) s → Reached ls0 h s
Reached-here ls0 h s k = record { now = h; moves = none_left h; stands = k }

pub Reached-after :
    (ls0 : List Location) (h h' : Holding) (s : Store)
    → Moves (IsNasIn ls0) h h'
    → Reached ls0 h' s
    → Reached ls0 h s
Reached-after ls0 h h' s m r = record {
  now = r.now;
  moves = Moves-trans h h' r.now m r.moves;
  stands = r.stands;
}

-- What Choose picks is listed as complete.
pub choose-In :
    (cs : List JoinedCopy) (root_of : Location → Option Text) (t : Text)
    → choose cs root_of ≡ some t
    → (c : JoinedCopy) × In c cs × (c.copy.state ≡ complete)
unfolding choose
choose-In [] root_of t q = cc
choose-In (c ∷ cs) root_of t q = elim (Bool-cases (c.copy.state == complete)) [
  | inl b ↦ (c, inl refl, (copy_state_eq_iff c.copy.state complete).0 b)
  | inr b ↦ let (d, m, e) = choose-In cs root_of t (ground (arith, q, b)) in (d, inr m, e)
]

module _ (sha256 : Identity.Bytes → Identity.Bytes) (env : Env) (ls0 : List Location)
    (ps : List Place) (a : Asset) (cs : List JoinedCopy) (root_of : Location → Option Text) where
  -- Whatever is chosen is held.
  abbrev pub Backed : Holding → Type 0
  Backed h = (t : Text) → choose cs root_of ≡ some t → (from : ℕ) × (h a.id from ≡ true)

  -- copyTo to a place that does not hold the asset.
  pub copy_to-Moves :
      (h : Holding) (dest : Place)
      → h a.id dest.cat.id ≡ false
      → Backed h
      → Ensures
          (On (Stands ls0 h))
          (copy_to sha256 env ps a cs root_of dest)
          (λ r s.
            On (Stands ls0 (with_copy h a.id dest.cat.id true)) s
            × Moves (IsNasIn ls0) h (with_copy h a.id dest.cat.id true))
          (λ e. Reached ls0 h)
  copy_to-Moves h dest free backed = record {
    at = λ s b.
        at s.world (copy_to sha256 env ps a cs root_of dest s).0
          (copy_to sha256 env ps a cs root_of dest s).1
          ((copy_to_ok sha256 env ls0 h ps a cs root_of dest free s.world).at s (b, refl));
  }
    where
      one :
          (w : Files.World)
          → IsCopied sha256 env a cs root_of dest w
          → Moves (IsNasIn ls0) h (with_copy h a.id dest.cat.id true)
      one w c =
          let (from, q) = backed c.src c.chosen in
          copied h (with_copy h a.id dest.cat.id true) a.id from dest.cat.id q (none_left _)

      at :
          (w : Files.World) (r : Result Failure CopyResult) (t : Store)
          → Post
              (λ r. After sha256 env ls0 h ps a cs root_of dest free w)
              (Either sha256 env ls0 h ps a cs root_of dest free w)
              r
              t
          → Post
              (λ r s.
                On (Stands ls0 (with_copy h a.id dest.cat.id true)) s
                × Moves (IsNasIn ls0) h (with_copy h a.id dest.cat.id true))
              (λ e. Reached ls0 h)
              r
              t
      at w (ok r) t k = (k.0, one w k.1)
      at w (err e) t (inl k) = Reached-here ls0 h t k
      at w (err e) t (inr k) =
          Reached-after ls0 h _ t (one w k.1)
            (Reached-here ls0 (with_copy h a.id dest.cat.id true) t k.0)

  -- No place that is left to do holds the asset where it is not listed.
  abbrev pub Free : Holding → List Place → Type 0
  Free h = All (λ p. has_complete cs p.cat.id ≡ false → h a.id p.cat.id ≡ false)

  Free-with_copy :
      (h : Holding) (to : ℕ) (qs : List Place)
      → All (λ q. (q.cat.id == to) ≡ false) qs
      → Free h qs
      → Free (with_copy h a.id to true) qs
  unfolding with_copy
  Free-with_copy h to [] d f = tt
  Free-with_copy h to (q ∷ qs) d f = (
    λ n. ground (arith, f.0 n, d.0, Bool-cases (a.id == a.id && q.cat.id == to)),
    Free-with_copy h to qs d.1 f.1,
  )

  Backed-with_copy : (h : Holding) (to : ℕ) → Backed h → Backed (with_copy h a.id to true)
  unfolding with_copy
  Backed-with_copy h to b t q =
      let (from, e) = b t q in (from, ground (arith, e, Bool-cases (a.id == a.id && from == to)))

  -- What a round of Archive leaves for the places that are left.
  record Next (h : Holding) (rest : List Place) (s : Store) : Type 0 where
    now : Holding
    stands : On (Stands ls0 now) s
    moves : Moves (IsNasIn ls0) h now
    free : Free now rest
    backed : Backed now

  archive_at-Next :
      (h : Holding) (p : Place) (rest : List Place)
      → Distinct place_id (p ∷ rest)
      → Free h (p ∷ rest)
      → Backed h
      → Ensures
          (On (Stands ls0 h))
          (archive_at sha256 env ps a cs root_of p)
          (λ r. Next h rest)
          (λ e. Reached ls0 h)
  unfolding archive_at
  archive_at-Next h p rest d f b =
      Ensures-if (has_complete cs p.cat.id) _ _
        (λ q.
          Ensures-weaken _
            (λ r s k. record { now = h; stands = k; moves = none_left h; free = f.1; backed = b })
            (λ e s k. Reached-here ls0 h s k)
            (Keeps-Ensures (
              Keeps-bind _ _ (sync_companions-Keeps (Stands ls0 h) sha256 env a root_of p false)
                λ n. Keeps-pure _)))
        λ q.
          Ensures-bind _ _
            (Ensures-weaken _ (λ u s k. k) (λ e s k. Reached-here ls0 h s k)
              (Keeps-Ensures (on_files-Keeps (Stands ls0 h) Files.check_context)))
            λ u.
              Ensures-weaken _
                (λ r s k. record {
                  now = with_copy h a.id p.cat.id true;
                  stands = k.0;
                  moves = k.1;
                  free = Free-with_copy h p.cat.id rest d.0 f.1;
                  backed = Backed-with_copy h p.cat.id b;
                })
                (λ e s k. k) (copy_to-Moves h p (f.0 q) b)

  pub archive_all-Reached :
      (h : Holding) (rest : List Place)
      → Distinct place_id rest
      → Free h rest
      → Backed h
      → Ensures
          (On (Stands ls0 h))
          (archive_all sha256 env ps a cs root_of rest)
          (λ r. Reached ls0 h)
          (λ e. Reached ls0 h)
  unfolding archive_all
  archive_all-Reached h [] d f b = record { at = λ s k. Reached-here ls0 h s k }
  archive_all-Reached h (p ∷ rest) d f b =
      Ensures-if (not p.mounted || not (p.cat.kind == nas) || not (serves p.cfg a.kind)) _ _
        (λ q. archive_all-Reached h rest d.1 f.1 b)
        λ q. Ensures-bind _ _ (archive_at-Next h p rest d f b) λ r. record {
          at = λ s n.
              (Ensures-bind (archive_all sha256 env ps a cs root_of rest) (λ rs. pure (r ∷ rs))
                  (Ensures-weaken _ (λ rs t k. Reached-after ls0 h n.now t n.moves k)
                    (λ e t k. Reached-after ls0 h n.now t n.moves k)
                    (archive_all-Reached n.now rest d.1 n.free n.backed))
                  (λ rs. record { at = λ t k. k })).at
                s n.stands;
        }
