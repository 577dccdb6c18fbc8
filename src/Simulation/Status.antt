-- ===== src/Simulation/Status.antt =====
-- app/map.c: when the simulation ends, and the figures of the status display.
pub mod Laws
use tp1_so_2c.Base.{ℕ, ◌+◌, Bool, true, false, not, ◌&&◌, List, [], ◌∷◌, if◌then◌else◌, ltb}
use tp1_so_2c.Base.Int.{ℤ, pos, ◌+ℤ◌, is_zero_ℤ}
use tp1_so_2c.Models.{Stock, City, Map}

-- `CONTINUE_SIM` and `END_SIM` of app/map.h
pub data SimState : Type 0 where
  continue_sim end_sim : SimState

abbrev pub max_turns : ℕ
max_turns = 70000

-- `hasNoStocks`
pub has_no_stocks : List Stock → Bool
has_no_stocks [] = true
has_no_stocks (s ∷ ss) = let rest = has_no_stocks ss in if is_zero_ℤ s.amount then rest else false

-- `cityIsSatisfied`
pub city_is_satisfied : City → Bool
unfolding has_no_stocks
city_is_satisfied c = has_no_stocks c.stock

-- The loop of `endSimulation` over the cities.
pub check_cities : List City → SimState
check_cities [] = end_sim
check_cities (c ∷ cs) =
    let rest = check_cities cs in if city_is_satisfied c then rest else continue_sim

-- `endSimulation`
pub end_simulation : Map → ℕ → SimState
unfolding check_cities city_is_satisfied
end_simulation map turn = if ltb turn max_turns then check_cities map.cities else end_sim

-- The inner loop of `get_map_status`: the amounts of a city, summed from `acc`.
pub add_stocks : ℤ → List Stock → ℤ
add_stocks acc [] = acc
add_stocks acc (s ∷ ss) = add_stocks (acc +ℤ s.amount) ss

-- The outer loop: the total of the amounts, and the number of satisfied cities.
pub add_cities : ℤ → ℕ → List City → ℤ × ℕ
unfolding add_stocks
add_cities total satisfied [] = (total, satisfied)
add_cities total satisfied (c ∷ cs) =
    let amount = add_stocks (pos 0) c.stock in
    add_cities (total +ℤ amount) (if is_zero_ℤ amount then satisfied + 1 else satisfied) cs

-- `get_map_status`: what it returns, and what it writes through `citiesSatisfied`.
pub get_map_status : Map → ℤ × ℕ
unfolding add_cities
get_map_status map = add_cities (pos 0) 0 map.cities
