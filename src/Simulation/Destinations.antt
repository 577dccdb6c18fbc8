-- ===== src/Simulation/Destinations.antt =====
-- app/map.c, `app_give_destinations`: the cities that a plane is offered. `qsort` is a parameter.
pub mod Score
pub mod Best
pub mod Loop
use tp1_so_2c.Base.{
  ℕ, ◌+◌, Bool, true, false, List, [], ◌∷◌, ◌++◌, map, Option, none, some, ◌==◌, ltb, length,
  get_elem?, set, if◌then◌else◌, ◌>>=◌,
}
use tp1_so_2c.Base.Int.{ℤ, pos, ◌+ℤ◌, ltb_ℤ, is_zero_ℤ}
use tp1_so_2c.Comm.{max_destinations}
use tp1_so_2c.Models.{Stock, City, Map, Plane, get_distance}

-- `struct CityInfo`
pub record CityInfo : Type 0 where
  pub city_id : ℕ
  pub distance : ℕ
  pub score : ℤ

-- The inner loop of `getCityScore`: the smaller of the two amounts at the first stock of the plane that
-- is of the product, if there is one.
pub stock_score : Stock → List Stock → ℤ
stock_score city_stock [] = pos 0
stock_score city_stock (p ∷ ps) =
    let rest = stock_score city_stock ps in
    if city_stock.product.id == p.product.id
    then (if ltb_ℤ p.amount city_stock.amount then p.amount else city_stock.amount)
    else rest

-- The outer loop of `getCityScore`.
pub add_scores : ℤ → List Stock → List Stock → ℤ
add_scores score [] planes = score
add_scores score (c ∷ cs) planes = add_scores (score +ℤ stock_score c planes) cs planes

-- `getCityScore`
pub get_city_score : List Stock → List Stock → ℤ
unfolding add_scores
get_city_score city_stocks plane_stocks = add_scores (pos 0) city_stocks plane_stocks

-- The loop of `insertScore` over the entries from index `i` on: the index of the least score.
pub min_score : List CityInfo → ℕ → ℤ → ℕ → ℕ
min_score [] i min min_index = min_index
min_score (c ∷ cs) i min min_index =
    min_score cs (i + 1) (if ltb_ℤ c.score min then c.score else min)
      (if ltb_ℤ c.score min then i else min_index)

-- An entry of which only the score is set.
abbrev pub scored : ℤ → CityInfo
scored score = record { city_id = 0; distance = 0; score = score }

-- The end of `insertScore`, at the entry `old` with the least score.
abbrev replace_score : List CityInfo → ℤ → ℕ → CityInfo → Option (ℕ × List CityInfo)
replace_score infos score i old =
    if ltb_ℤ old.score score then some (i, set infos i (record old { score = score })) else none

-- `insertScore` on the entries that are filled, `elems` of them. `none` is the result -1, which
-- leaves the array alone. (It reads no entry of an empty array, as it is called with a size of 10.)
pub insert_score : List CityInfo → ℕ → ℤ → Option (ℕ × List CityInfo)
unfolding min_score
insert_score [] size score = if ltb 0 size then some (0, scored score ∷ []) else none
insert_score (first ∷ others) size score =
    let infos = first ∷ others in
    if ltb (length infos) size
    then some (length infos, infos ++ scored score ∷ [])
    else elim (get_elem? infos (min_score infos 0 first.score 0)) [
      | none ↦ none
      | some old ↦ replace_score infos score (min_score infos 0 first.score 0) old
    ]

-- The round of the loop of `app_give_destinations` for a city. `none`: the distance is read outside of
-- the matrix.
pub offer_city : Map → Plane → City → List CityInfo → Option (List CityInfo)
offer_city map plane city infos =
    let score = get_city_score city.stock plane.stocks in
    if is_zero_ℤ score then some infos else elim (insert_score infos max_destinations score) [
      | none ↦ some infos
      | some (index, infos') ↦ elim (get_distance map city.id plane.city_id) [
        | none ↦ none
        | some d ↦
            some (set infos' index (record { city_id = city.id; distance = d; score = score }))
      ]
    ]

-- The loop over the cities.
pub offer_cities : Map → Plane → List City → List CityInfo → Option (List CityInfo)
unfolding offer_city
offer_cities map plane [] infos = some infos
offer_cities map plane (c ∷ cs) infos =
    offer_city map plane c infos >>= λ infos'. offer_cities map plane cs infos'
