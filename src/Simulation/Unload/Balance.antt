-- ===== src/Simulation/Unload/Balance.antt =====
-- app/map.c, `updateMap`: what holds of the amounts, whichever products the plane and the city have.
use tp1_so_2c.Base.{
  ℕ, zero, suc, ◌≡◌, ap, sym, List, [], ◌∷◌, some, arith, get_elem?, set, >>=-eq-some, some_inj,
}
use tp1_so_2c.Base.Int.{ℤ, pos, parts, ◌+ℤ◌, ◌-ℤ◌, ◌≤ℤ◌, int_laws}
use tp1_so_2c.Models.{Stock}
use tp1_so_2c.Simulation.Unload.{find_stock, discharge, unload_stock, unload_all}

-- The sum of the amounts of some stocks.
unfoldable pub total : List Stock → ℤ
total [] = pos 0
total (s ∷ ss) = s.amount +ℤ total ss

-- No stock has a negative amount.
abbrev pub NonNegative : List Stock → Type 0
NonNegative [] = Unit
NonNegative (s ∷ ss) = (pos 0 ≤ℤ s.amount) × NonNegative ss

-- The city and the plane lose the same amount, and neither gets below zero or grows.
pub record Discharged (c p : ℤ) (out : ℤ × ℤ) : Type 0 where
  pub balance : out.0 +ℤ p ≡ c +ℤ out.1
  pub city_nonneg : pos 0 ≤ℤ out.0
  pub plane_nonneg : pos 0 ≤ℤ out.1
  pub city_le : out.0 ≤ℤ c
  pub plane_le : out.1 ≤ℤ p

discharge_lem : (c p : ℤ) → pos 0 ≤ℤ c → pos 0 ≤ℤ p → Discharged c p (discharge c p)
unfolding discharge ◌-ℤ◌ ◌+ℤ◌
discharge_lem c p hc hp = ground arith

discharge_balance : (c p : ℤ) → (discharge c p).0 +ℤ p ≡ c +ℤ (discharge c p).1
unfolding discharge ◌-ℤ◌ ◌+ℤ◌
discharge_balance c p = ground arith

total-set :
    (ss : List Stock) (j : ℕ) (s t : Stock)
    → get_elem? ss j ≡ some s
    → total (set ss j t) +ℤ s.amount ≡ total ss +ℤ t.amount
unfolding total
total-set [] j s t e = cc
total-set (x ∷ ss) zero s t e = let same : x ≡ s = ground arith in rw same (omega int_laws)
total-set (x ∷ ss) (suc j) s t e = omega (int_laws, parts (total-set ss j s t e))

NonNegative-at :
    (ss : List Stock) (j : ℕ) (s : Stock)
    → NonNegative ss
    → get_elem? ss j ≡ some s
    → pos 0 ≤ℤ s.amount
NonNegative-at [] j s h e = cc
NonNegative-at (x ∷ ss) zero s h e = let same : x ≡ s = ground arith in rw (← same) (h.0)
NonNegative-at (x ∷ ss) (suc j) s h e = NonNegative-at ss j s h.1 e

NonNegative-set :
    (ss : List Stock) (j : ℕ) (s : Stock)
    → NonNegative ss
    → pos 0 ≤ℤ s.amount
    → NonNegative (set ss j s)
NonNegative-set [] j s h p = h
NonNegative-set (x ∷ ss) zero s h p = (p, h.1)
NonNegative-set (x ∷ ss) (suc j) s h p = (h.0, NonNegative-set ss j s h.1 p)

-- The stock of the city that a stock of the plane goes to.
pub record Unloaded (cs : List Stock) (p : Stock) (out : List Stock × Stock) : Type 0 where
  pub index : ℕ
  pub target : Stock
  pub found : find_stock p.product.id cs ≡ some index
  pub at : get_elem? cs index ≡ some target
  pub city : out.0 ≡ set cs index (record target { amount = (discharge target.amount p.amount).0 })
  pub plane : out.1 ≡ record p { amount = (discharge target.amount p.amount).1 }

pub unload_stock_lem :
    (cs : List Stock) (p : Stock) {out : List Stock × Stock}
    → unload_stock cs p ≡ some out
    → Unloaded cs p out
unfolding unload_stock
unload_stock_lem cs p {out} e =
    let (j, found, e1) = >>=-eq-some (find_stock p.product.id cs) _ e in
    let (t, at, e2) = >>=-eq-some (get_elem? cs j) _ e1 in
    record {
      index = j;
      target = t;
      found = found;
      at = at;
      city = sym (ap (λ o. o.0) (some_inj e2));
      plane = sym (ap (λ o. o.1) (some_inj e2));
    }

-- The stocks of the city and those of the plane lose the same, amount for amount; no amount gets
-- below zero, and none grows.
pub record Balanced (cs ps : List Stock) (out : List Stock × List Stock) : Type 0 where
  pub balance : total out.0 +ℤ total ps ≡ total cs +ℤ total out.1
  pub city_nonneg : NonNegative out.0
  pub plane_nonneg : NonNegative out.1
  pub city_le : total out.0 ≤ℤ total cs
  pub plane_le : total out.1 ≤ℤ total ps

unload_stock-Balanced :
    (cs : List Stock) (p : Stock) {out : List Stock × Stock}
    → NonNegative cs
    → pos 0 ≤ℤ p.amount
    → unload_stock cs p ≡ some out
    → Balanced cs (p ∷ []) (out.0, out.1 ∷ [])
unfolding total
unload_stock-Balanced cs p hc hp e =
    let u = unload_stock_lem cs p e in
    let t = u.target in
    let d = discharge_lem t.amount p.amount (NonNegative-at cs u.index t hc u.at) hp in
    let sums =
      parts (total-set cs u.index t (record t { amount = (discharge t.amount p.amount).0 }) u.at) in
    rw (u.city, u.plane)
      (record {
        balance = omega (int_laws, sums, parts d.balance);
        city_nonneg = NonNegative-set cs u.index _ hc d.city_nonneg;
        plane_nonneg = (d.plane_nonneg, tt);
        city_le = omega (int_laws, sums, d.city_le);
        plane_le = omega (int_laws, d.plane_le);
      })

-- Whatever the products are, the loop of `updateMap` moves stock from the plane to the city, amount
-- for amount: both sides lose the same total, no amount gets below zero, and no side grows.
pub unload_all-Balanced :
    (cs ps : List Stock) {out : List Stock × List Stock}
    → NonNegative cs
    → NonNegative ps
    → unload_all cs ps ≡ some out
    → Balanced cs ps out
unfolding unload_all total
unload_all-Balanced cs [] {out} hc hp e =
    let same : (cs, []) ≡ out = some_inj e in
    rw (← same) (record {
      balance = omega int_laws;
      city_nonneg = hc;
      plane_nonneg = tt;
      city_le = omega int_laws;
      plane_le = omega int_laws;
    })
unload_all-Balanced cs (p ∷ ps) {out} hc hp e =
    let (mid, first, e1) = >>=-eq-some (unload_stock cs p) _ e in
    let (fin, rest, e2) = >>=-eq-some (unload_all mid.0 ps) _ e1 in
    let same : (fin.0, mid.1 ∷ fin.1) ≡ out = some_inj e2 in
    let a = unload_stock-Balanced cs p hc hp.0 first in
    let b = unload_all-Balanced mid.0 ps a.city_nonneg hp.1 rest in
    rw (← same) (record {
      balance = omega (int_laws, parts a.balance, parts b.balance);
      city_nonneg = b.city_nonneg;
      plane_nonneg = (a.plane_nonneg.0, b.plane_nonneg);
      city_le = omega (int_laws, a.city_le, b.city_le);
      plane_le = omega (int_laws, a.plane_le, b.plane_le);
    })
