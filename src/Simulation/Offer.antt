-- ===== src/Simulation/Offer.antt =====
-- app/map.c, the end of `app_give_destinations`: the cities that were kept are sorted by their
-- distance and sent. `qsort` of the C library is a parameter.
pub mod Nearest
use tp1_so_2c.Base.{ℕ, ◌≡◌, List, [], ◌∷◌, map, Option, none, some, length, ◌>>=◌}
use mathlib.Core.List.{Perm}
use tp1_so_2c.Base.Int.{ℤ, pos, ◌-ℤ◌, ◌≤ℤ◌}
use tp1_so_2c.Comm.{DestinationsMessage}
use tp1_so_2c.Models.{Map, Plane}
use tp1_so_2c.Marshall.{marshall_give_destinations}
use tp1_so_2c.Simulation.Destinations.{CityInfo, offer_cities}

-- `cityInfoComparator`
unfoldable pub city_info_comparator : CityInfo → CityInfo → ℤ
city_info_comparator a b = pos a.distance -ℤ pos b.distance

-- No later element compares below an earlier one.
abbrev pub AllAfter : (CityInfo → CityInfo → ℤ) → CityInfo → List CityInfo → Type 0
AllAfter cmp a [] = Unit
AllAfter cmp a (b ∷ bs) = (cmp a b ≤ℤ pos 0) × AllAfter cmp a bs

abbrev pub IsOrdered : (CityInfo → CityInfo → ℤ) → List CityInfo → Type 0
IsOrdered cmp [] = Unit
IsOrdered cmp (a ∷ bs) = AllAfter cmp a bs × IsOrdered cmp bs

-- What `qsort` does with an array and a comparison: it permutes the array into an order in which no
-- element compares below an earlier one.
pub record QSort (cmp : CityInfo → CityInfo → ℤ) : Type 0 where
  pub sort : List CityInfo → List CityInfo
  pub permutes : (infos : List CityInfo) → Perm (sort infos) infos
  pub orders : (infos : List CityInfo) → IsOrdered cmp (sort infos)

-- `comm_give_destinations` (communication/map.c): the message that is written to the airline.
pub comm_give_destinations : Plane → ℕ → List ℕ → List ℕ → DestinationsMessage
comm_give_destinations plane count cities_ids distances =
    marshall_give_destinations plane.id count cities_ids distances

-- `app_give_destinations`
pub app_give_destinations : QSort city_info_comparator → Map → Plane → Option DestinationsMessage
unfolding comm_give_destinations
app_give_destinations qsort m plane = do
  kept ← offer_cities m plane m.cities []
  let sorted = qsort.sort kept
  some (
      comm_give_destinations plane (length kept) (map (λ c. c.city_id) sorted)
        (map (λ c. c.distance) sorted))
