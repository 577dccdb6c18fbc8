-- ===== src/Simulation/Effects.antt =====
-- app/map.c, `updateMap` and `initPlane`: what the handling of a message does to the whole map.
use tp1_so_2c.Base.{
  ℕ, zero, suc, ◌≡◌, refl, ap, sym, List, [], ◌∷◌, some, >>=-eq-some, some_inj, length, length-set,
  get_elem?, set,
}
use tp1_so_2c.Base.Int.{ℤ, pos, negsuc, parts, ◌+ℤ◌, ◌≤ℤ◌, int_laws}
use tp1_so_2c.Models.{Stock, City, Product, Map, Plane, get_from_vector}
use tp1_so_2c.Comm.{PlaneMessageHeader, StockMessagePart}
use tp1_so_2c.Models.{copied, get_product_name, init_stock}
use tp1_so_2c.Models.Catalogue.{init_stock-amount}
use tp1_so_2c.Simulation.Receive.{init_stocks, init_plane}
use tp1_so_2c.Simulation.Unload.{unload_all, set_city, update_map}
use tp1_so_2c.Simulation.Unload.Balance.{total, NonNegative, Balanced, unload_all-Balanced}
use tp1_so_2c.Simulation.Status.Laws.{map_total, AllNonNegative}

-- What a turn may do to the cities: the needs shrink or stay, and no amount gets below zero.
pub record Shrinks (m m' : Map) : Type 0 where
  pub needs : map_total m'.cities ≤ℤ map_total m.cities
  pub nonneg : AllNonNegative m'.cities
  pub cities : length m'.cities ≡ length m.cities

map_total-set :
    (cs : List City) (j : ℕ) (c d : City)
    → get_elem? cs j ≡ some c
    → map_total (set cs j d) +ℤ total c.stock ≡ map_total cs +ℤ total d.stock
unfolding map_total
map_total-set [] j c d e = cc
map_total-set (x ∷ cs) zero c d e = let same : x ≡ c = some_inj e in rw same (omega int_laws)
map_total-set (x ∷ cs) (suc j) c d e = omega (int_laws, parts (map_total-set cs j c d e))

AllNonNegative-at :
    (cs : List City) (j : ℕ) (c : City)
    → AllNonNegative cs
    → get_elem? cs j ≡ some c
    → NonNegative c.stock
AllNonNegative-at [] j c h e = cc
AllNonNegative-at (x ∷ cs) zero c h e =
    let same : x ≡ c = some_inj e in rw (ap (λ d. d.stock) (sym same)) h.0
AllNonNegative-at (x ∷ cs) (suc j) c h e = AllNonNegative-at cs j c h.1 e

AllNonNegative-get :
    (cs : List City) (id : ℤ) (c : City)
    → AllNonNegative cs
    → get_from_vector cs id ≡ some c
    → NonNegative c.stock
AllNonNegative-get cs (pos i) c h e = AllNonNegative-at cs i c h e
AllNonNegative-get cs (negsuc i) c h e = cc

AllNonNegative-set :
    (cs : List City) (j : ℕ) (c : City)
    → AllNonNegative cs
    → NonNegative c.stock
    → AllNonNegative (set cs j c)
AllNonNegative-set [] j c h n = tt
AllNonNegative-set (x ∷ cs) zero c h n = (n, h.1)
AllNonNegative-set (x ∷ cs) (suc j) c h n = (h.0, AllNonNegative-set cs j c h.1 n)

-- What `updateMap` leaves: as much need has gone from the cities as stock from the plane, and the
-- amounts of both are still not negative.
pub record Moved (m : Map) (plane : Plane) (out : Map × Plane) : Type 0 where
  pub balance :
      map_total out.0.cities +ℤ total plane.stocks ≡ map_total m.cities +ℤ total out.1.stocks
  pub plane_nonneg : NonNegative out.1.stocks
  pub shrinks : Shrinks m out.0
  pub product : out.0.product ≡ m.product

set_city-Moved :
    (m : Map) (plane : Plane) (city : City) (id : ℤ) (out : List Stock × List Stock)
    → AllNonNegative m.cities
    → get_from_vector m.cities id ≡ some city
    → Balanced city.stock plane.stocks out
    → Moved m plane (
      record m { cities = set_city m.cities id (record city { stock = out.0 }) },
      record plane { stocks = out.1 },
    )
set_city-Moved m plane city (negsuc i) out h at b = cc
set_city-Moved m plane city (pos i) out h at b =
    let sums = parts (map_total-set m.cities i city (record city { stock = out.0 }) at) in
    record {
      balance = omega (int_laws, sums, parts b.balance);
      plane_nonneg = b.plane_nonneg;
      shrinks = record {
        needs = omega (int_laws, sums, b.city_le);
        nonneg = AllNonNegative-set m.cities i _ h b.city_nonneg;
        cities = length-set m.cities i _;
      };
      product = refl;
    }

-- When `updateMap` finishes, on a map and a plane with no negative amount: the need of all the cities
-- together and the load of the plane have shrunk by the same total, and no amount is negative.
pub update_map-Moved :
    (m : Map) (plane : Plane) {out : Map × Plane}
    → AllNonNegative m.cities
    → NonNegative plane.stocks
    → update_map m plane ≡ some out
    → Moved m plane out
unfolding update_map
update_map-Moved m plane h hp run =
    let (city, at, r1) = >>=-eq-some (get_from_vector m.cities plane.city_id) _ run in
    let (out, r2, r3) = >>=-eq-some (unload_all city.stock plane.stocks) _ r1 in
    rw (sym (some_inj r3)) (
      set_city-Moved m plane city plane.city_id out h at (
        unload_all-Balanced city.stock plane.stocks
          (AllNonNegative-get m.cities plane.city_id city h at) hp r2))

-- No quantity of a message is negative.
abbrev pub NonNegativeQuantities : List ℤ → Type 0
NonNegativeQuantities [] = Unit
NonNegativeQuantities (q ∷ qs) = (pos 0 ≤ℤ q) × NonNegativeQuantities qs

init_stocks-NonNegative :
    (n : ℕ) (ids : List ℕ) (qs : List ℤ) (ps : List Product) {out : List Stock × List Product}
    → NonNegativeQuantities qs
    → init_stocks n ids qs ps ≡ some out
    → NonNegative out.0
unfolding init_stocks
init_stocks-NonNegative zero ids qs ps h run = rw (sym (some_inj run)) tt
init_stocks-NonNegative (suc n) [] qs ps h run = cc
init_stocks-NonNegative (suc n) (id ∷ ids) [] ps h run = cc
init_stocks-NonNegative (suc n) (id ∷ ids) (q ∷ qs) ps h run =
    let (whole, r0, r1) = >>=-eq-some (get_product_name id ps) _ run in
    let (name, _, r2) = >>=-eq-some (copied whole) _ r1 in
    let (s, r3, r4) = >>=-eq-some (init_stock name q ps).0 _ r2 in
    let (rest, r5, r6) = >>=-eq-some (init_stocks n ids qs (init_stock name q ps).1) _ r4 in
    rw (sym (some_inj r6)) (
      rw (init_stock-amount name q ps s r3) h.0,
      init_stocks-NonNegative n ids qs (init_stock name q ps).1 h.1 r5,
    )

-- `initPlane` leaves the cities and the matrix alone, and its plane has the quantities of the message.
pub init_plane-keeps :
    (part : StockMessagePart) (header : PlaneMessageHeader) (m : Map) {out : Plane × Map}
    → NonNegativeQuantities part.quantities
    → init_plane part header m ≡ some out
    → (out.1.cities ≡ m.cities) × (out.1.matrix ≡ m.matrix) × NonNegative out.0.stocks
unfolding init_plane
init_plane-keeps part header m h run =
    let (made, r1, r2) =
      >>=-eq-some (init_stocks part.count part.stock_id part.quantities m.product) _ run in
    rw (sym (some_inj r2))
      (refl, refl, init_stocks-NonNegative part.count part.stock_id part.quantities m.product h r1)
