-- ===== src/Ingest/Listing/Selected.antt =====
-- Select of ingest/import.go: an asset that several arguments match is selected once.
use mediamanager.Base.{
  ◌≡◌, refl, sym, inl, inr, false, List, [], ◌∷◌, ◌++◌, arith, Bool-cases, any, Text, text_eq_iff,
  ℕ_eq, Text_eq, Pair_eq, ◌==◌, ok,
}
use mediamanager.Base.Exec.Keeps.{Ensures, Ensures-bind, Ensures-nothing, Post-ok}
use mediamanager.Ingest.Store.{Store, query, tried}
use mediamanager.Ingest.Scanned.{AssetRef, ref_of}
use mediamanager.Catalog.{LocationKind_eq, Asset, CopyState_eq, Role_eq}
use mediamanager.Catalog.Assets.{asset}
use mediamanager.Ingest.Listing.{add_new, by_id_or_path, select_from, select}

-- The ids of the list differ.
abbrev pub OnceEach : List AssetRef → Type 0
OnceEach [] = Unit
OnceEach (r ∷ rs) = (any (λ (x : AssetRef). x.id == r.id) rs ≡ false) × OnceEach rs

any-snoc :
    (a : Asset) (x : AssetRef) (rs : List AssetRef)
    → any (λ (r : AssetRef). r.id == x.id) rs ≡ false
    → (x.id == a.id) ≡ false
    → any (λ (r : AssetRef). r.id == x.id) (rs ++ (ref_of a ∷ [])) ≡ false
unfolding ref_of
any-snoc a x [] h k = elim (Bool-cases (a.id == x.id)) [
  | inl b ↦
      let e : x.id ≡ a.id = sym ((text_eq_iff a.id x.id).0 b) in
      absurd (ground (arith, k, (text_eq_iff x.id a.id).1 e))
  | inr b ↦ ground (arith, b)
]
any-snoc a x (r ∷ rs) h k = ground (arith, any-snoc a x rs)

OnceEach-snoc :
    (a : Asset) (rs : List AssetRef)
    → OnceEach rs
    → any (λ (r : AssetRef). r.id == a.id) rs ≡ false
    → OnceEach (rs ++ (ref_of a ∷ []))
OnceEach-snoc a [] h k = (refl, tt)
OnceEach-snoc a (r ∷ rs) h k =
    (any-snoc a r rs h.0 (ground (arith, k)), OnceEach-snoc a rs h.1 (ground (arith, k)))

add_new-OnceEach :
    (refs : List AssetRef) (found : List Asset) → OnceEach refs → OnceEach (add_new refs found)
unfolding add_new
add_new-OnceEach refs [] h = h
add_new-OnceEach refs (a ∷ more) h = elim (Bool-cases (any (λ (r : AssetRef). r.id == a.id) refs)) [
  | inl b ↦ rw b (add_new-OnceEach refs more h)
  | inr b ↦ rw b (add_new-OnceEach (refs ++ (ref_of a ∷ [])) more (OnceEach-snoc a refs h b))
]

select_from_ok :
    (refs : List AssetRef) (args : List Text)
    → OnceEach refs
    → Ensures (λ s. Unit {0}) (select_from refs args) (λ rs s. OnceEach rs) (λ e s. Unit {0})
unfolding select_from
select_from_ok refs [] h = record { at = λ s k. h }
select_from_ok refs (arg ∷ args) h =
    Ensures-bind _ _ (Ensures-nothing (tried (query (λ db. asset db arg)))) λ found.
      Ensures-bind _ _ (Ensures-nothing (by_id_or_path arg found))
        λ assets. select_from_ok (add_new refs assets) args (add_new-OnceEach refs assets h)

-- Select that returns has each asset once, whichever arguments match it.
pub select-OnceEach :
    (args : List Text) (s : Store) (refs : List AssetRef)
    → (select args s).0 ≡ ok refs
    → OnceEach refs
unfolding select
select-OnceEach args s refs q =
    Post-ok (λ rs s. OnceEach rs) _ _ refs ((select_from_ok [] args tt).at s tt) q
