-- ===== src/Simulation/Unload/Products.antt =====
-- app/map.c, `updateMap`: unloading changes amounts, and leaves the products of the city in place.
use tp1_so_2c.Base.{
  ℕ, zero, suc, ◌≡◌, refl, ap, ap₂, sym, ◌∙◌, Bool, List, [], ◌∷◌, some, get_elem?, set, map,
  >>=-eq-some, some_inj, ◌==◌, ◌||◌,
}
use mathlib.Core.List.{head-eq_of_cons-eq, tail-eq_of_cons-eq}
use tp1_so_2c.Base.Int.{ℤ}
use tp1_so_2c.Models.{Stock, Product}
use tp1_so_2c.Simulation.Unload.{discharge, unload_stock, unload_all}
use tp1_so_2c.Simulation.Unload.Balance.{unload_stock_lem}
use tp1_so_2c.Simulation.Unload.Needs.{has_product, IsDistinct}

abbrev pub products : List Stock → List Product
products = map (λ s. s.product)

products-set :
    (ss : List Stock) (j : ℕ) (s : Stock) (a : ℤ)
    → get_elem? ss j ≡ some s
    → products (set ss j (record s { amount = a })) ≡ products ss
products-set [] j s a e = refl
products-set (x ∷ ss) zero s a e =
    ap (λ p. p ∷ products ss) (ap (λ t. t.product) (sym (some_inj e)))
products-set (x ∷ ss) (suc j) s a e = ap (λ ps. x.product ∷ ps) (products-set ss j s a e)

-- The products of the city, and those of the plane, stay what they were, in their order.
pub unload_all-products :
    (cs ps : List Stock) {out : List Stock × List Stock}
    → unload_all cs ps ≡ some out
    → (products out.0 ≡ products cs) × (products out.1 ≡ products ps)
unfolding unload_all
unload_all-products cs [] {out} e =
    let same : (cs, []) ≡ out = some_inj e in rw (← same) (refl, refl)
unload_all-products cs (p ∷ ps) {out} e =
    let (mid, first, e1) = >>=-eq-some (unload_stock cs p) _ e in
    let (fin, rest, e2) = >>=-eq-some (unload_all mid.0 ps) _ e1 in
    let same : (fin.0, mid.1 ∷ fin.1) ≡ out = some_inj e2 in
    let u = unload_stock_lem cs p first in
    let more = unload_all-products mid.0 ps rest in
    rw (← same) (
      more.0
          ∙ ap products u.city
          ∙ products-set cs u.index u.target (discharge u.target.amount p.amount).0 u.at,
      ap₂ ◌∷◌ (ap (λ s. s.product) u.plane) more.1,
    )

has_product_of_products :
    (i : ℕ) (ss ts : List Stock) → products ss ≡ products ts → has_product i ss ≡ has_product i ts
unfolding has_product
has_product_of_products i [] [] e = refl
has_product_of_products i [] (t ∷ ts) e = cc
has_product_of_products i (s ∷ ss) [] e = cc
has_product_of_products i (s ∷ ss) (t ∷ ts) e =
    ap₂ (λ (p : Product) (b : Bool). p.id == i || b) (head-eq_of_cons-eq e)
      (has_product_of_products i ss ts (tail-eq_of_cons-eq e))

pub IsDistinct-of_products :
    (ss ts : List Stock) → products ss ≡ products ts → IsDistinct ts → IsDistinct ss
IsDistinct-of_products [] ts e d = tt
IsDistinct-of_products (s ∷ ss) [] e d = cc
IsDistinct-of_products (s ∷ ss) (t ∷ ts) e d = (
  has_product_of_products s.product.id ss ts (tail-eq_of_cons-eq e)
      ∙ ap (λ (p : Product). has_product p.id ts) (head-eq_of_cons-eq e)
      ∙ d.0,
  IsDistinct-of_products ss ts (tail-eq_of_cons-eq e) d.1,
)
