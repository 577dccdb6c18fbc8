-- ===== src/Simulation/Status/Laws.antt =====
-- app/map.c: the end of the simulation and the figures of the display tell the same of the map.
use tp1_so_2c.Base.{
  ℕ, zero, suc, ◌+◌, ◌≤◌, ◌≡◌, refl, ap₂, ◌∙◌, Bool, true, false, List, [], ◌∷◌, arith, length,
  if◌then◌else◌, ◌↔◌, ◌⊎◌,
}
use tp1_so_2c.Base.Int.{ℤ, pos, negsuc, parts, ◌+ℤ◌, ◌≤ℤ◌, int_laws, is_zero_ℤ}
use tp1_so_2c.Models.{Stock, City, Map}
use tp1_so_2c.Simulation.Unload.Balance.{total, NonNegative}
use tp1_so_2c.Simulation.Status.{
  SimState, continue_sim, end_sim, max_turns, has_no_stocks, city_is_satisfied, check_cities,
  end_simulation, add_stocks, add_cities, get_map_status,
}

-- The amounts that all the cities need.
unfoldable pub map_total : List City → ℤ
map_total [] = pos 0
map_total (c ∷ cs) = total c.stock +ℤ map_total cs

-- The number of cities whose needs add up to nothing.
pub satisfied : List City → ℕ
satisfied [] = 0
satisfied (c ∷ cs) = (if is_zero_ℤ (total c.stock) then 1 else 0) + satisfied cs

abbrev pub AllNonNegative : List City → Type 0
AllNonNegative [] = Unit
AllNonNegative (c ∷ cs) = NonNegative c.stock × AllNonNegative cs

add_stocks-eq : (acc : ℤ) (ss : List Stock) → add_stocks acc ss ≡ acc +ℤ total ss
unfolding add_stocks total
add_stocks-eq acc [] = omega int_laws
add_stocks-eq acc (s ∷ ss) = omega (int_laws, parts (add_stocks-eq (acc +ℤ s.amount) ss))

pos_zero-add : (a : ℤ) → pos 0 +ℤ a ≡ a
pos_zero-add a = omega int_laws

add_cities-eq :
    (acc : ℤ) (n : ℕ) (cs : List City)
    → add_cities acc n cs ≡ (acc +ℤ map_total cs, n + satisfied cs)
unfolding add_cities map_total satisfied
add_cities-eq acc n [] = ap₂ (λ (a : ℤ) (k : ℕ). (a, k)) (omega int_laws) (omega arith)
add_cities-eq acc n (c ∷ cs) =
    let amount : add_stocks (pos 0) c.stock ≡ total c.stock =
      add_stocks-eq (pos 0) c.stock ∙ pos_zero-add (total c.stock) in
    rw amount (
      add_cities-eq (acc +ℤ total c.stock) (if is_zero_ℤ (total c.stock) then n + 1 else n) cs
      ∙ ap₂ (λ (a : ℤ) (k : ℕ). (a, k)) (omega int_laws) (ground arith))

-- The status that is displayed: the sum of all the amounts that the cities need, and the number of
-- cities whose amounts add up to zero.
pub get_map_status_lem :
    (map : Map) → get_map_status map ≡ (map_total map.cities, satisfied map.cities)
unfolding get_map_status
get_map_status_lem map =
    add_cities-eq (pos 0) 0 map.cities
    ∙ ap₂ (λ (a : ℤ) (k : ℕ). (a, k)) (omega int_laws) (omega arith)

is_zero-add :
    (a b : ℤ)
    → pos 0 ≤ℤ a
    → pos 0 ≤ℤ b
    → is_zero_ℤ (a +ℤ b) ≡ (if is_zero_ℤ a then is_zero_ℤ b else false)
unfolding ◌+ℤ◌
is_zero-add a b ha hb = ground arith

total_nonneg : (ss : List Stock) → NonNegative ss → pos 0 ≤ℤ total ss
unfolding total
total_nonneg [] h = omega arith
total_nonneg (s ∷ ss) h = omega (int_laws, h.0, total_nonneg ss h.1)

pub map_total_nonneg : (cs : List City) → AllNonNegative cs → pos 0 ≤ℤ map_total cs
unfolding map_total
map_total_nonneg [] h = omega arith
map_total_nonneg (c ∷ cs) h = omega (int_laws, total_nonneg c.stock h.0, map_total_nonneg cs h.1)

has_no_stocks-eq : (ss : List Stock) → NonNegative ss → has_no_stocks ss ≡ is_zero_ℤ (total ss)
unfolding has_no_stocks total
has_no_stocks-eq [] h = refl
has_no_stocks-eq (s ∷ ss) h =
    ground
      (arith, is_zero-add s.amount (total ss) h.0 (total_nonneg ss h.1), has_no_stocks-eq ss h.1)

abbrev is_end : SimState → Bool
is_end end_sim = true
is_end continue_sim = false

check_cities-eq :
    (cs : List City) → AllNonNegative cs → is_end (check_cities cs) ≡ is_zero_ℤ (map_total cs)
unfolding check_cities map_total city_is_satisfied
check_cities-eq [] h = refl
check_cities-eq (c ∷ cs) h = ground (
  arith,
  is_zero-add (total c.stock) (map_total cs) (total_nonneg c.stock h.0) (map_total_nonneg cs h.1),
  has_no_stocks-eq c.stock h.0,
  check_cities-eq cs h.1,
)

satisfied-le : (cs : List City) → satisfied cs ≤ length cs
unfolding satisfied
satisfied-le [] = omega arith
satisfied-le (c ∷ cs) = ground (arith, satisfied-le cs)

satisfied_iff :
    (cs : List City)
    → AllNonNegative cs
    → (is_zero_ℤ (map_total cs) ≡ true) ↔ (satisfied cs ≡ length cs)
unfolding satisfied map_total
satisfied_iff [] h = (λ _. refl, λ _. refl)
satisfied_iff (c ∷ cs) h = ground (
  arith,
  is_zero-add (total c.stock) (map_total cs) (total_nonneg c.stock h.0) (map_total_nonneg cs h.1),
  satisfied-le cs,
  satisfied_iff cs h.1,
)

is_zero_iff : (a : ℤ) → (is_zero_ℤ a ≡ true) ↔ (a ≡ pos 0)
is_zero_iff (pos zero) = ground arith
is_zero_iff (pos (suc n)) = ground arith
is_zero_iff (negsuc n) = ground arith

-- On a map with no negative amount, the simulation ends exactly when 70000 turns are over or the
-- displayed need of the map is zero, and exactly when 70000 turns are over or all the cities are
-- displayed as satisfied.
pub end_simulation_lem :
    (map : Map) (turn : ℕ)
    → AllNonNegative map.cities
    → ((end_simulation map turn ≡ end_sim)
        ↔ ((max_turns ≤ turn) ⊎ ((get_map_status map).0 ≡ pos 0)))
      × ((end_simulation map turn ≡ end_sim)
          ↔ ((max_turns ≤ turn) ⊎ ((get_map_status map).1 ≡ length map.cities)))
unfolding end_simulation
end_simulation_lem map turn h = rw (get_map_status_lem map) (
    ground (
      arith,
      check_cities-eq map.cities h,
      satisfied_iff map.cities h,
      is_zero_iff (map_total map.cities),
    ))
