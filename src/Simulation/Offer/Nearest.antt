-- ===== src/Simulation/Offer/Nearest.antt =====
-- app/map.c, `app_give_destinations`: the message holds the best cities, the nearest first.
use tp1_so_2c.Base.{
  ℕ, zero, suc, ◌≤◌, ◌≡◌, refl, ap, ◌∙◌, List, [], ◌∷◌, map, some, arith, length, take, length-map,
}
use mathlib.Core.List.{Perm}
use tp1_so_2c.Base.Places.{length-perm}
use tp1_so_2c.Base.Int.{int_laws}
use tp1_so_2c.Comm.{DestinationsMessage, max_destinations}
use tp1_so_2c.Models.{Map, Plane}
use tp1_so_2c.Marshall.{marshall_give_destinations}
use tp1_so_2c.Simulation.Destinations.{CityInfo}
use tp1_so_2c.Simulation.Destinations.Best.{Selected, candidates}
use tp1_so_2c.Simulation.Destinations.Loop.{HasDistances, offer_cities_lem}
use tp1_so_2c.Simulation.Offer.{
  city_info_comparator, AllAfter, IsOrdered, QSort, comm_give_destinations, app_give_destinations,
}

-- Each number is at most every later one.
abbrev pub AtMostAll : ℕ → List ℕ → Type 0
AtMostAll n [] = Unit
AtMostAll n (m ∷ ms) = (n ≤ m) × AtMostAll n ms

abbrev pub IsAscending : List ℕ → Type 0
IsAscending [] = Unit
IsAscending (n ∷ ns) = AtMostAll n ns × IsAscending ns

AtMostAll-distances :
    (a : CityInfo) (bs : List CityInfo)
    → AllAfter city_info_comparator a bs
    → AtMostAll a.distance (map (λ c. c.distance) bs)
unfolding city_info_comparator
AtMostAll-distances a [] h = tt
AtMostAll-distances a (b ∷ bs) h = (omega (int_laws, h.0), AtMostAll-distances a bs h.1)

IsAscending-distances :
    (l : List CityInfo) → IsOrdered city_info_comparator l → IsAscending (map (λ c. c.distance) l)
IsAscending-distances [] h = tt
IsAscending-distances (a ∷ bs) h = (AtMostAll-distances a bs h.0, IsAscending-distances bs h.1)

take_all : {A : Type 0} (xs : List A) (n : ℕ) → length xs ≡ n → take n xs ≡ xs
take_all [] zero e = refl
take_all [] (suc n) e = refl
take_all (x ∷ xs) zero e = absurd (omega arith)
take_all (x ∷ xs) (suc n) e = ap (λ l. x ∷ l) (take_all xs n (omega arith))

-- The message that a plane gets: the entries of the cities that were kept, in an order of ascending
-- distances, and their number.
pub record Offered (m : Map) (plane : Plane) (msg : DestinationsMessage) : Type 0 where
  pub kept : List CityInfo
  pub rejected : List CityInfo
  pub ordered : List CityInfo
  pub selected : Selected kept rejected (candidates m plane m.cities)
  pub order : Perm ordered kept
  pub count : msg.count ≡ length kept
  pub few : msg.count ≤ max_destinations
  pub addressed : msg.plane_id ≡ plane.id
  pub cities : msg.destinations ≡ map (λ c. c.city_id) ordered
  pub distances : msg.distance ≡ map (λ c. c.distance) ordered
  pub ascending : IsAscending msg.distance

-- When the matrix has the distances, a plane is sent the at most ten cities with the best scores, with
-- their distances, the nearest first.
pub app_give_destinations_lem :
    (qsort : QSort city_info_comparator) (m : Map) (plane : Plane)
    → HasDistances m plane m.cities
    → (msg : DestinationsMessage) × (app_give_destinations qsort m plane ≡ some msg)
      × Offered m plane msg
unfolding app_give_destinations comm_give_destinations marshall_give_destinations
app_give_destinations_lem qsort m plane h =
    let (kept, rejected, run, sel) = offer_cities_lem m plane h in
    let sorted = qsort.sort kept in
    let size : length sorted ≡ length kept = length-perm (qsort.permutes kept) in
    let ids = map (λ c. c.city_id) sorted in
    let distances = map (λ c. c.distance) sorted in
    let all_distances : take (length kept) distances ≡ distances =
      take_all distances (length kept) (length-map sorted (λ c. c.distance) ∙ size) in
    (
      comm_give_destinations plane (length kept) ids distances,
      rw run,
      record {
        kept = kept;
        rejected = rejected;
        ordered = sorted;
        selected = sel;
        order = qsort.permutes kept;
        count = refl;
        few = sel.bound;
        addressed = refl;
        cities = take_all ids (length kept) (length-map sorted (λ c. c.city_id) ∙ size);
        distances = all_distances;
        ascending = rw all_distances (IsAscending-distances sorted (qsort.orders kept));
      },
    )
