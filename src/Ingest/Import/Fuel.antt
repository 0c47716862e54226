-- ===== src/Ingest/Import/Fuel.antt =====
-- The pages of AllArchivedOn of ingest/import.go: how many there are.
use mediamanager.Base.Exec.{continue}
use mediamanager.Base.{
  ℕ, zero, suc, ◌+◌, ◌≤◌, ◌<◌, ◌≡◌, refl, sym, ap, ◌∙◌, inl, inr, false, List, [], arith, ltb,
  Bool-cases, length, take, drop, drop_all, is_empty, Text, ℕ_eq, Text_eq, Pair_eq, Result, err, ok,
}
use mediamanager.Base.Exec.Keeps.{Post}
use mediamanager.Ingest.Store.{Store, Failure, Step, ask}
use mediamanager.Ingest.Env.{Env, Place}
use mediamanager.Ingest.Kept.{ask-Ensures}
use mediamanager.Ingest.Import.{page_size, page_archived, pages_archived}
use mediamanager.Ingest.Import.Pages.{take-nil, ids_of, page_archived_ok}
use mediamanager.Catalog.{LocationKind_eq, CopyState_eq, Role_eq, Db}
use mediamanager.Catalog.Sources.{page, source_asset_ids}
use mediamanager.Identity

same_rest :
    {A B : Type 0} (f g : A → Step B) (good : A → Store → Type 0) (bad : Failure → Store → Type 0)
    → ((a : A) (t : Store) → good a t → f a t ≡ g a t)
    → (r : Result Failure A) (t : Store) → Post good bad r t
    → continue r f t ≡ continue r g t
same_rest f g good bad k (ok a) t h = k a t h
same_rest f g good bad k (err e) t h = refl

-- There is a page at an offset only before the end.
page-length :
    (offset m : ℕ) (xs : List Text)
    → is_empty (take m (drop offset xs)) ≡ false
    → offset < length xs
page-length offset m xs q = elim (Bool-cases (ltb offset (length xs))) [
  | inl b ↦ ground (arith, b)
  | inr b ↦
      let e : take m (drop offset xs) ≡ [] =
        ap (take m) (drop_all offset xs (ground (arith, b))) ∙ take-nil m in
      absurd (cc)
]

module _ (ps : List Place) (d : Db) (sha256 : Identity.Bytes → Identity.Bytes) (env : Env)
    (loc_id : ℕ) where
  -- A page more changes nothing once there are more pages left than assets.
  pub pages_archived-enough :
      (fuel offset n : ℕ) (s : Store)
      → s.db ≡ d
      → 1 ≤ fuel
      → length (ids_of d loc_id) < offset + fuel
      → pages_archived sha256 env ps loc_id fuel offset n s
        ≡ pages_archived sha256 env ps loc_id (suc fuel) offset n s
  unfolding pages_archived source_asset_ids page
  pages_archived-enough zero offset n s h l m = absurd (omega arith)
  pages_archived-enough (suc fuel) offset n s h l m =
      same_rest _ _ _ _
        (λ ids t k. elim (Bool-cases (is_empty ids)) [
          | inl b ↦ rw b refl
          | inr b ↦
              let before_end =
                page-length offset page_size (ids_of d loc_id) (ap is_empty (sym k.1) ∙ b) in
              rw b (
                same_rest _ _ _ _
                  (λ done u g. elim (Bool-cases done) [
                    | inl c ↦ rw c (
                        pages_archived-enough fuel (offset + page_size) (n + length ids) u g.0
                          (omega arith) (omega arith))
                    | inr c ↦ rw c refl
                  ])
                  (page_archived sha256 env ps ids t).0 (page_archived sha256 env ps ids t).1
                  ((page_archived_ok ps d sha256 env ids).at t k.0))
        ])
        (ask (λ db. source_asset_ids db loc_id offset page_size) s).0
        (ask (λ db. source_asset_ids db loc_id offset page_size) s).1
        ((ask-Ensures d (λ db. source_asset_ids db loc_id offset page_size)).at s h)
