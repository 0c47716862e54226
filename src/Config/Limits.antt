-- ===== src/Config/Limits.antt =====
-- The cap on archive copies while a card is being spooled, of config/config.go.
use mediamanager.Base.Int.{pos, ℤ_eq, int_ltb}
use mediamanager.Base.{
  ◌≡◌, subst, true, false, not, [], arith, is_empty, ℕ_eq, Text_eq, Pair_eq, ok, >>=-eq-ok, if-err,
}
use mediamanager.Config.{
  Concurrency, Config, Env, nas_while_importing, zone_ok, with_defaults, finish_trees,
  finish_locations, check_served, finish,
}

bounds :
    (c : Concurrency)
    → int_ltb (pos 0) c.nas ≡ true
    → (int_ltb (nas_while_importing c) (pos 0) ≡ false)
      × (int_ltb c.nas (nas_while_importing c) ≡ false)
unfolding nas_while_importing int_ltb
bounds c h = ground arith

positive :
    (env : Env) (given : Config) → int_ltb (pos 0) (with_defaults env given).concurrency.nas ≡ true
unfolding with_defaults int_ltb
positive env given = ground arith

-- With accepted settings the number of archive copies during an import is neither negative nor
-- more than the number of archive copies at other times.
pub nas_while_importing-finish :
    (env : Env) (given c : Config)
    → finish env given ≡ ok c
    → (int_ltb (nas_while_importing c.concurrency) (pos 0) ≡ false)
      × (int_ltb c.concurrency.nas (nas_while_importing c.concurrency) ≡ false)
unfolding finish
nas_while_importing-finish env given c q =
    let d = with_defaults env given in
    let q1 = if-err (not (zone_ok env d)) _ _ q in
    let q2 = if-err (is_empty d.trees) _ _ q1 in
    let (ts, a, q3) = >>=-eq-ok (finish_trees env d.trees) _ q2 in
    let q4 = if-err (is_empty d.locations) _ _ q3 in
    let (ls, b, q5) = >>=-eq-ok (finish_locations env ts [] d.locations) _ q4 in
    let (u, s, q6) = >>=-eq-ok (check_served ls ts) _ q5 in
    let same : d.concurrency ≡ c.concurrency = cc in
    bounds c.concurrency (subst (λ x. int_ltb (pos 0) x.nas ≡ true) same (positive env given))
