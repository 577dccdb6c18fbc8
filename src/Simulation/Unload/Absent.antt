-- ===== src/Simulation/Unload/Absent.antt =====
-- app/map.c, `updateMap`: a product of the plane that the city does not list.
use tp1_so_2c.Base.{ℕ, ◌≡◌, false, List, [], ◌∷◌, ◌++◌, some, arith, length}
use tp1_so_2c.Base.Places.{get_elem?-last, set-last}
use tp1_so_2c.Models.{Stock}
use tp1_so_2c.Simulation.Unload.{find_stock, discharge, unload_stock}
use tp1_so_2c.Simulation.Unload.Needs.{has_product}

-- The search runs past the last stock and leaves the pointer on it.
find_stock-absent :
    (id : ℕ) (front : List Stock) (last : Stock)
    → has_product id (front ++ last ∷ []) ≡ false
    → find_stock id (front ++ last ∷ []) ≡ some (length front)
unfolding find_stock has_product
find_stock-absent id [] last h = ground arith
find_stock-absent id (s ∷ front) last h = ground (arith, find_stock-absent id front last)

-- When no stock of the city is of the product, the product of the plane is unloaded against the last
-- stock of the city, which is of another product: that need shrinks by what the plane gives up.
pub unload_stock-absent :
    (front : List Stock) (last p : Stock)
    → has_product p.product.id (front ++ last ∷ []) ≡ false
    → unload_stock (front ++ last ∷ []) p
      ≡ some (
        front ++ record last { amount = (discharge last.amount p.amount).0 } ∷ [],
        record p { amount = (discharge last.amount p.amount).1 },
      )
unfolding unload_stock
unload_stock-absent front last p h =
    rw (find_stock-absent p.product.id front last h, get_elem?-last, set-last)
