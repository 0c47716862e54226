-- ===== src/Catalog/Copies/Joined.antt =====
-- What the join of Copies in catalog/catalog.go returns, and in which order.
use mediamanager.Base.{
  ◌≤◌, ◌≡◌, inl, inr, true, false, some, List, [], ◌∷◌, arith, Option-cases, In, Text, ℕ_eq,
  Text_eq, Pair_eq,
}
use mediamanager.Base.Sorting.{Ascends, sort-Ascends}
use mediamanager.Base.Int.{ℤ_eq}
use mediamanager.Table.{find}
use mediamanager.Catalog.{
  LocationKind_eq, Location, CopyState_eq, Copy, JoinedCopy, Role_eq, Db, location_id_key,
}
use mediamanager.Catalog.Copies.{joined, tier, nearer, copies}

module _ (db : Db) where
  pub In-joined :
      (j : JoinedCopy) (cs : List Copy)
      → In j (joined db cs)
      → In j.copy cs × (find location_id_key j.copy.location_id db.locations ≡ some j.location)
  unfolding joined
  In-joined j [] m = absurd m
  In-joined j (c ∷ cs) m = ground (arith, In-joined j cs)

  pub joined-In :
      (c : Copy) (l : Location) (cs : List Copy)
      → In c cs
      → find location_id_key c.location_id db.locations ≡ some l
      → In (record { copy = c; location = l }) (joined db cs)
  unfolding joined
  joined-In c l [] m h = absurd m
  joined-In c l (d ∷ cs) (inl e) h =
      let h' : find location_id_key d.location_id db.locations ≡ some l = rw e h in
      rw (h', joined) (inl (cc e))
  joined-In c l (d ∷ cs) (inr m) h =
      elim (Option-cases (find location_id_key d.location_id db.locations)) [
        | inl q ↦ rw (q, joined) (joined-In c l cs m h)
        | inr (k, q) ↦ rw (q, joined) (inr (joined-In c l cs m h))
      ]

-- The order of two copies is that of their tiers first.
tier-nearer_down :
    (c d : JoinedCopy) → nearer d c ≡ true → tier d.location.kind ≤ tier c.location.kind
unfolding nearer
tier-nearer_down c d h = ground arith

tier-nearer_up :
    (c d : JoinedCopy) → nearer d c ≡ false → tier c.location.kind ≤ tier d.location.kind
unfolding nearer
tier-nearer_up c d h = ground arith

-- The sort of Copies goes by the tiers first.
pub copies-Ascends :
    (db : Db) (id : Text) → Ascends nearer (λ c. tier c.location.kind) (copies db id)
unfolding copies
copies-Ascends db id =
    sort-Ascends nearer (λ c. tier c.location.kind) tier-nearer_down tier-nearer_up _
