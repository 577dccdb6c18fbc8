-- ===== src/Simulation/Unload/Needs.antt =====
-- app/map.c, `updateMap`: what each product ends at, when the city knows every product of the plane.
use tp1_so_2c.Base.{
  ℕ, suc, ◌≡◌, refl, ◌∙◌, Bool, true, false, ◌||◌, List, [], ◌∷◌, some, arith, get_elem?, set, ◌==◌,
  if◌then◌else◌, Bool-cases, inl, inr,
}
use tp1_so_2c.Base.Int.{ℤ, pos, ◌-ℤ◌, ◌≤ℤ◌, min_ℤ}
use tp1_so_2c.Models.{Stock}
use tp1_so_2c.Simulation.Unload.{find_stock, discharge, unload_stock, unload_all}
use tp1_so_2c.Simulation.Unload.Balance.{NonNegative}

-- The amount of a product among some stocks: that of its first stock, or zero.
unfoldable pub amount_of : ℕ → List Stock → ℤ
amount_of id [] = pos 0
amount_of id (s ∷ ss) = if s.product.id == id then s.amount else amount_of id ss

-- Some stock is of the product.
unfoldable pub has_product : ℕ → List Stock → Bool
has_product id [] = false
has_product id (s ∷ ss) = s.product.id == id || has_product id ss

-- No product has two stocks.
abbrev pub IsDistinct : List Stock → Type 0
IsDistinct [] = Unit
IsDistinct (s ∷ ss) = (has_product s.product.id ss ≡ false) × IsDistinct ss

-- The city has a stock of every product of the plane.
abbrev pub Covers : List Stock → List Stock → Type 0
Covers cs [] = Unit
Covers cs (p ∷ ps) = (has_product p.product.id cs ≡ true) × Covers cs ps

-- What the search finds in a list that has the product, and what a new amount there does to the list.
record Hit (id : ℕ) (cs : List Stock) : Type 0 where
  index : ℕ
  target : Stock
  found : find_stock id cs ≡ some index
  at : get_elem? cs index ≡ some target
  amount : target.amount ≡ amount_of id cs
  after :
      (i : ℕ) (a : ℤ)
      → (amount_of i (set cs index (record target { amount = a }))
          ≡ (if i == id then a else amount_of i cs))
        × (has_product i (set cs index (record target { amount = a })) ≡ has_product i cs)

hit : (id : ℕ) (cs : List Stock) → has_product id cs ≡ true → Hit id cs
unfolding find_stock amount_of has_product
hit id [] h = cc
hit id (c ∷ cs) h = elim (Bool-cases (c.product.id == id)) [
  | inl e ↦ record {
    index = 0;
    target = c;
    found = ground arith;
    at = refl;
    amount = ground arith;
    after = λ i a. ground arith;
  }
  | inr e ↦
      let rest = hit id cs (ground arith) in
      record {
        index = suc rest.index;
        target = rest.target;
        found = ground (arith, rest.found);
        at = rest.at;
        amount = ground (arith, rest.amount);
        after = λ i a. ground (arith, rest.after i a);
      }
]

discharge_min : (c p : ℤ) → discharge c p ≡ (c -ℤ min_ℤ c p, p -ℤ min_ℤ c p)
unfolding discharge min_ℤ ◌-ℤ◌
discharge_min c p = ground arith

-- One stock of the plane is unloaded into a city that has its product.
record Done (cs : List Stock) (p : Stock) : Type 0 where
  left : List Stock
  runs :
      unload_stock cs p
      ≡ some (left, record p { amount = (discharge (amount_of p.product.id cs) p.amount).1 })
  amounts :
      (i : ℕ)
      → amount_of i left ≡ (
          if i == p.product.id
          then (discharge (amount_of p.product.id cs) p.amount).0
          else amount_of i cs)
  products : (i : ℕ) → has_product i left ≡ has_product i cs

unload_stock_Done : (cs : List Stock) (p : Stock) → has_product p.product.id cs ≡ true → Done cs p
unfolding unload_stock
unload_stock_Done cs p h =
    let u = hit p.product.id cs h in
    record {
      left =
          set cs u.index
            (record u.target { amount = (discharge (amount_of p.product.id cs) p.amount).0 });
      runs = rw (u.found, u.at, u.amount);
      amounts = λ i. (u.after i (discharge (amount_of p.product.id cs) p.amount).0).0;
      products = λ i. (u.after i (discharge (amount_of p.product.id cs) p.amount).0).1;
    }

Covers-same :
    (cs ds ps : List Stock)
    → ((i : ℕ) → has_product i ds ≡ has_product i cs)
    → Covers cs ps
    → Covers ds ps
Covers-same cs ds [] same h = tt
Covers-same cs ds (p ∷ ps) same h = (same p.product.id ∙ h.0, Covers-same cs ds ps same h.1)

amount_of-absent : (i : ℕ) (ss : List Stock) → has_product i ss ≡ false → amount_of i ss ≡ pos 0
unfolding amount_of has_product
amount_of-absent i [] h = refl
amount_of-absent i (s ∷ ss) h = ground (arith, amount_of-absent i ss)

pub amount_of_nonneg : (i : ℕ) (ss : List Stock) → NonNegative ss → pos 0 ≤ℤ amount_of i ss
unfolding amount_of
amount_of_nonneg i [] h = omega arith
amount_of_nonneg i (s ∷ ss) h = ground (arith, h.0, amount_of_nonneg i ss h.1)

-- What is left of the stocks of the city and of the plane: of each product, both have lost the
-- smaller of the two amounts. The products of both lists are the same as before.
pub record Met (cs ps : List Stock) : Type 0 where
  pub left : List Stock
  pub rest : List Stock
  pub runs : unload_all cs ps ≡ some (left, rest)
  pub city : (i : ℕ) → amount_of i left ≡ amount_of i cs -ℤ min_ℤ (amount_of i cs) (amount_of i ps)
  pub plane : (i : ℕ) → amount_of i rest ≡ amount_of i ps -ℤ min_ℤ (amount_of i cs) (amount_of i ps)
  pub city_products : (i : ℕ) → has_product i left ≡ has_product i cs
  pub plane_products : (i : ℕ) → has_product i rest ≡ has_product i ps

-- A product that is unloaded now is not touched later, and the others are not touched now.
after_one :
    (c p : ℤ)
    → pos 0 ≤ℤ c
    → (pos 0 ≤ℤ c -ℤ min_ℤ c p)
      × (c -ℤ min_ℤ c p -ℤ min_ℤ (c -ℤ min_ℤ c p) (pos 0) ≡ c -ℤ min_ℤ c p)
      × (c -ℤ min_ℤ c (pos 0) ≡ c)
unfolding min_ℤ ◌-ℤ◌
after_one c p h = ground arith

zero_left : (c : ℤ) → pos 0 ≤ℤ c → pos 0 -ℤ min_ℤ c (pos 0) ≡ pos 0
unfolding min_ℤ ◌-ℤ◌
zero_left c h = ground arith

-- What the later rounds need to know of the round of `p`.
record AtDischarge (c p : ℤ) : Type 0 where
  both : discharge c p ≡ (c -ℤ min_ℤ c p, p -ℤ min_ℤ c p)
  nonneg : pos 0 ≤ℤ c -ℤ min_ℤ c p
  kept : c -ℤ min_ℤ c p -ℤ min_ℤ (c -ℤ min_ℤ c p) (pos 0) ≡ c -ℤ min_ℤ c p

at_discharge :
    (cs : List Stock) (p : Stock)
    → ((i : ℕ) → pos 0 ≤ℤ amount_of i cs)
    → AtDischarge (amount_of p.product.id cs) p.amount
at_discharge cs p nonneg =
    let a = after_one (amount_of p.product.id cs) p.amount (nonneg p.product.id) in
    record { both = discharge_min _ _; nonneg = a.0; kept = a.1 }

unload_all_Met :
    (cs ps : List Stock)
    → ((i : ℕ) → pos 0 ≤ℤ amount_of i cs)
    → IsDistinct ps
    → Covers cs ps
    → Met cs ps
unfolding unload_all amount_of has_product
unload_all_Met cs [] nonneg d c = record {
  left = cs;
  rest = [];
  runs = refl;
  city = λ i. ground (arith, after_one (amount_of i cs) (pos 0) (nonneg i));
  plane = λ i. ground (arith, zero_left (amount_of i cs) (nonneg i));
  city_products = λ i. refl;
  plane_products = λ i. refl;
}
unload_all_Met cs (p ∷ ps) nonneg d c =
    let one = unload_stock_Done cs p c.0 in
    let more =
      unload_all_Met one.left ps
        (λ i. ground (arith, one.amounts i, nonneg i, at_discharge cs p nonneg)) d.1
        (Covers-same cs one.left ps one.products c.1) in
    record {
      left = more.left;
      rest = record p { amount = (discharge (amount_of p.product.id cs) p.amount).1 } ∷ more.rest;
      runs = rw (one.runs, more.runs);
      city = λ i. ground (
        arith,
        one.amounts i,
        more.city i,
        nonneg i,
        at_discharge cs p nonneg,
        amount_of-absent i ps,
      );
      plane = λ i. ground (
        arith,
        one.amounts i,
        more.plane i,
        nonneg i,
        at_discharge cs p nonneg,
        amount_of-absent i ps,
      );
      city_products = λ i. more.city_products i ∙ one.products i;
      plane_products = λ i. ground (arith, more.plane_products i);
    }

-- When the city has a stock, with no negative amount, of every product of the plane, and no product
-- has two stocks in the plane: the loop of `updateMap` finishes, and of each product both sides lose
-- the smaller of what the city needs and what the plane carries. Products are neither added nor lost.
pub unload_all-Met :
    (cs ps : List Stock) → NonNegative cs → IsDistinct ps → Covers cs ps → Met cs ps
unload_all-Met cs ps h d c = unload_all_Met cs ps (λ i. amount_of_nonneg i cs h) d c
