-- ===== src/Ingest/Source/Placed.antt =====
-- The permanent name that place of ingest/source.go gives a new asset.

use mediamanager.Base.Exec.{fail, ◌>>=◌}
use mediamanager.Base.{
  ℕ, zero, suc, ◌+◌, ◌≤◌, ◌<◌, ◌≡◌, sym, ap, ◌∙◌, subst, ◌≢◌, ◌⊎◌, inl, inr, true, arith,
  if◌then◌else◌, nat_eq_iff, Bool-cases, Option-cases, Text, text_eq_iff, ℕ_eq, Text_eq, Pair_eq,
  ◌==◌, Result, err, ok,
}
use mediamanager.Ingest.Store.{
  Store, Failure, statement_failed, catalog_error, naming_error, Step, from_result, statement,
}
use mediamanager.Ingest.Source.{
  attempts, candidate, is_path_taken, or_next, place_from, place, date_path,
}
use mediamanager.Ingest.Kept.{Says, statement-Says}
use mediamanager.Media.{kind_eq_iff, Kind_eq}
use mediamanager.Table.{find}
use mediamanager.Catalog
use mediamanager.Catalog.{
  LocationKind_eq, Asset, CopyState_eq, Role_eq, Db, not_found, path_taken, asset_key,
  asset_path_key,
}
use mediamanager.Catalog.Assets.{asset, asset_by_path, put_known, put_new, put_asset}
use mediamanager.Catalog.Assets.Recorded.{asset-put_asset}

-- The asset is recorded at the first of the names from the nth on that no other asset of its kind has.
pub record Placed (a : Asset) (base : Text) (n rounds : ℕ) (before after : Db) (rel : Text)
    : Type 0 where
  pub index : ℕ
  pub from : n ≤ index
  pub below : index < n + rounds
  pub name_is : rel ≡ candidate base index
  pub have : Asset
  pub recorded : asset after a.id ≡ ok have
  pub at_path : have.rel_path ≡ rel
  pub of_kind : have.kind ≡ a.kind
  -- No asset of the kind had the name, unless it was this asset's own.
  pub free :
      (asset_by_path before a.kind rel ≡ err not_found)
      ⊎ ((own : Asset) × (asset before a.id ≡ ok own) × (own.rel_path ≡ rel) × (own.kind ≡ a.kind))
  pub others : (j : Text) → j ≢ a.id → asset after j ≡ asset before j
  pub taken :
      (k : ℕ)
      → n ≤ k
      → k < index
      → (other : Asset) × (asset_by_path before a.kind (candidate base k) ≡ ok other)

path_taken-owner :
    (db : Db) (a : Asset)
    → put_asset db a ≡ err path_taken
    → (other : Asset) × (asset_by_path db a.kind a.rel_path ≡ ok other)
unfolding put_asset put_new put_known asset_by_path
path_taken-owner db a q = elim (Option-cases (find asset_path_key (asset_path_key a) db.assets)) [
  | inl n ↦ absurd (ground (arith, q, n))
  | inr (other, n) ↦ (other, ground (arith, n))
]

-- What a successful PutAsset says of the path before it.
put_asset-free :
    (db : Db) (a : Asset) (db' : Db)
    → put_asset db a ≡ ok db'
    → (asset_by_path db a.kind a.rel_path ≡ err not_found)
      ⊎ ((own : Asset) × (asset db a.id ≡ ok own)
          × (own.rel_path ≡ a.rel_path)
          × (own.kind ≡ a.kind))
unfolding put_asset put_new put_known asset_by_path asset
put_asset-free db a db' q = elim (Option-cases (find asset_key a.id db.assets)) [
  | inr (own, n) ↦ inr (
    own,
    ground (arith, n),
    ground (arith, q, n, text_eq_iff own.rel_path a.rel_path),
    ground (arith, q, n, kind_eq_iff own.kind a.kind),
  )
  | inl n ↦ elim (Option-cases (find asset_path_key (asset_path_key a) db.assets)) [
    | inl m ↦ inl (ground (arith, m))
    | inr (other, m) ↦ absurd (ground (arith, q, n, m))
  ]
]

is_path_taken-eq : (e : Failure) → is_path_taken e ≡ true → e ≡ catalog_error path_taken
is_path_taken-eq e q = ground (arith, q)

module _ (a : Asset) (base : Text) where
  abbrev named : ℕ → Asset
  named n = record a { rel_path = candidate base n }

  -- The next round starts from the same database.
  later :
      (n rounds : ℕ) (d d' after : Db) (rel : Text)
      → d' ≡ d
      → put_asset d (named n) ≡ err path_taken
      → Placed a base (suc n) rounds d' after rel
      → Placed a base n (suc rounds) d after rel
  later n rounds d d' after rel e q p = record {
    index = p.index;
    from = omega (arith, p.from);
    below = omega (arith, p.below);
    name_is = p.name_is;
    have = p.have;
    recorded = p.recorded;
    at_path = p.at_path;
    of_kind = p.of_kind;
    free =
        subst
          (λ (x : Db).
            (asset_by_path x a.kind rel ≡ err not_found)
            ⊎ ((own : Asset) × (asset x a.id ≡ ok own)
                × (own.rel_path ≡ rel)
                × (own.kind ≡ a.kind)))
          e p.free;
    others = λ j m. p.others j m ∙ ap (λ x. asset x j) e;
    taken = λ k l m. elim (Bool-cases (k == n)) [
      | inl b ↦
          subst (λ i. (other : Asset) × (asset_by_path d a.kind (candidate base i) ≡ ok other))
            (sym ((nat_eq_iff k n).0 b)) (path_taken-owner d (named n) q)
      | inr b ↦
          let (other, z) = p.taken k (ground (arith, l, b)) m in
          (other, ap (λ x. asset_by_path x a.kind (candidate base k)) (sym e) ∙ z)
    ];
  }

  step-Placed :
      (n rounds : ℕ) (d : Db) (rel : Text) (next : Step Text)
      → ((t : Store) → (next t).0 ≡ ok rel → Placed a base (suc n) rounds t.db (next t).1.db rel)
      → (r : Result Failure (Unit {0})) (t : Store) → Says (λ db. put_asset db (named n)) d r t
      → (or_next (candidate base n) next r t).0 ≡ ok rel
      → Placed a base n (suc rounds) d (or_next (candidate base n) next r t).1.db rel
  step-Placed n rounds d rel next ih (ok u) t k q =
      let (have, f, p, kd, o) = asset-put_asset d (named n) k in
      let same : candidate base n ≡ rel = ground (arith, q) in
      record {
        index = n;
        from = omega arith;
        below = omega arith;
        name_is = sym same;
        have = have;
        recorded = f;
        at_path = p ∙ same;
        of_kind = kd;
        free =
            subst
              (λ (x : Text).
                (asset_by_path d a.kind x ≡ err not_found)
                ⊎ ((own : Asset) × (asset d a.id ≡ ok own)
                    × (own.rel_path ≡ x)
                    × (own.kind ≡ a.kind)))
              same (put_asset-free d (named n) t.db k);
        others = o;
        taken = λ k l m. absurd (omega (arith, l, m));
      }
  step-Placed n rounds d rel next ih (err e) t k q = elim (Bool-cases (is_path_taken e)) [
    | inr b ↦ absurd (ground (arith, q, b))
    | inl b ↦ rw b (
        later n rounds d t.db (next t).1.db rel k.0 (refused (is_path_taken-eq e b) k.1)
          (ih t (subst (λ b. ((if b then next else fail e) t).0 ≡ ok rel) b q)))
  ]
    where
      refused :
          e ≡ catalog_error path_taken
          → (e ≡ statement_failed)
            ⊎ ((x : Catalog.Error) × (e ≡ catalog_error x) × (put_asset d (named n) ≡ err x))
          → put_asset d (named n) ≡ err path_taken
      refused p (inl z) = cc
      refused p (inr (x, z, w)) = let same : x ≡ path_taken = cc in w ∙ ap err same

  place_from-Placed :
      (n rounds : ℕ) (s : Store) (rel : Text)
      → (place_from a base n rounds s).0 ≡ ok rel
      → Placed a base n rounds s.db (place_from a base n rounds s).1.db rel
  unfolding place_from
  place_from-Placed n zero s rel q = cc
  place_from-Placed n (suc rounds) s rel q =
      step-Placed n rounds s.db rel (place_from a base (suc n) rounds)
        (λ t. place_from-Placed (suc n) rounds t rel) (statement (λ db. put_asset db (named n)) s).0
        (statement (λ db. put_asset db (named n)) s).1
        (statement-Says (λ db. put_asset db (named n)) s) q

-- place records the asset under its base name or, with the least suffix below 100, the first
-- name that no other asset of its kind has: the name was free or already its own, and the names
-- before it were taken. It changes no other asset.
pub place-Placed :
    (a : Asset) (s : Store) (base rel : Text)
    → date_path (record {
      kind = a.kind;
      orig_name = a.orig_name;
      id = a.id;
      capture_time = a.capture_time;
    })
      ≡ ok base
    → (place a s).0 ≡ ok rel
    → Placed a base 0 attempts s.db (place a s).1.db rel
unfolding place
place-Placed a s base rel named q =
    let e : place a s ≡ place_from a base 0 attempts s =
      ap (λ r. (from_result naming_error r >>= λ b. place_from a b 0 attempts) s) named in
    subst (λ (r : Result Failure Text × Store). Placed a base 0 attempts s.db r.1.db rel) (sym e)
      (place_from-Placed a base 0 attempts s rel (ap (λ r. r.0) (sym e) ∙ q))
