-- ===== src/Simulation/Unload.antt =====
-- app/map.c, `updateMap`: a plane unloads what its city needs.
pub mod Balance
pub mod Needs
pub mod Absent
pub mod Products
use tp1_so_2c.Base.{
  ℕ, suc, Bool, true, false, List, [], ◌∷◌, Option, none, some, ◌==◌, get_elem?, set, if◌then◌else◌,
  ◌>>=◌,
}
use tp1_so_2c.Base.Int.{ℤ, pos, negsuc, leb_ℤ, ◌-ℤ◌}
use tp1_so_2c.Models.{Stock, City, Map, Plane, get_from_vector}

-- The index at which the search through the stocks of the city stops: that of the first stock of the
-- product, or else of the last stock. `none`: the city has no stock, and the pointer is not set.
unfoldable pub find_stock : ℕ → List Stock → Option ℕ
find_stock id [] = none
find_stock id (s ∷ ss) =
    let rest = find_stock id ss in
    if s.product.id == id then some 0 else elim rest [ none ↦ some 0 | some j ↦ some (suc j) ]

-- The amounts of the city and of the plane after one stock is unloaded.
unfoldable pub discharge : ℤ → ℤ → ℤ × ℤ
discharge city plane = if leb_ℤ plane city then (city -ℤ plane, pos 0) else (pos 0, plane -ℤ city)

-- One round of the loop over the stocks of the plane. `none` is a read through a bad pointer.
unfoldable pub unload_stock : List Stock → Stock → Option (List Stock × Stock)
unload_stock city_stocks plane_stock = do
  j ← find_stock plane_stock.product.id city_stocks
  city_stock ← get_elem? city_stocks j
  let (c, p) = discharge city_stock.amount plane_stock.amount
  some (set city_stocks j (record city_stock { amount = c }), record plane_stock { amount = p })

-- The loop: the stocks of the city and those of the plane.
unfoldable pub unload_all : List Stock → List Stock → Option (List Stock × List Stock)
unload_all city_stocks [] = some (city_stocks, [])
unload_all city_stocks (p ∷ ps) = do
  (cs, p') ← unload_stock city_stocks p
  (cs', ps') ← unload_all cs ps
  some (cs', p' ∷ ps')

-- The city at an index is replaced.
abbrev pub set_city : List City → ℤ → City → List City
set_city cs (pos i) c = set cs i c
set_city cs (negsuc i) c = cs

-- `updateMap`. `none`: there is no such city (the vector is left locked), or the city has no stock.
unfoldable pub update_map : Map → Plane → Option (Map × Plane)
update_map map plane = do
  city ← get_from_vector map.cities plane.city_id
  (cs, ps) ← unload_all city.stock plane.stocks
  some (
    record map { cities = set_city map.cities plane.city_id (record city { stock = cs }) },
    record plane { stocks = ps },
  )
