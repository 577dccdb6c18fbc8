-- ===== src/Tests/Unloading.antt =====
-- Planes that unload, and the theorems about app/map.c and marshall/ at them.
use tp1_so_2c.Base.{◌≡◌, refl, List, [], ◌∷◌, some, arith, ◌>>=◌, ◌≤◌, ◌↔◌, ◌⊎◌}
use tp1_so_2c.Base.Int.{pos, ◌-ℤ◌}
use tp1_so_2c.Models.{Stock, Map, get_product}
use tp1_so_2c.Models.Catalogue.{empty-IsCatalogue, IsCatalogue, get_product_lem}
use tp1_so_2c.Marshall.{marshall_change_stock, marshall_check_destinations}
use tp1_so_2c.Marshall.RoundTrip.{init_plane-marshalled}
use tp1_so_2c.Simulation.Receive.{init_plane}
use tp1_so_2c.Simulation.Unload.{find_stock, discharge, unload_stock, unload_all, update_map}
use tp1_so_2c.Simulation.Unload.Needs.{Met, unload_all-Met, has_product}
use tp1_so_2c.Simulation.Unload.Absent.{unload_stock-absent}
use tp1_so_2c.Simulation.Status.{end_simulation, get_map_status, end_sim, max_turns}
use tp1_so_2c.Simulation.Status.Laws.{end_simulation_lem}
use tp1_so_2c.Simulation.Destinations.{get_city_score}
use tp1_so_2c.Simulation.Destinations.Score.{
  get_city_score_lem, get_city_score-unload_all, unloadable,
}
use tp1_so_2c.Simulation.Effects.{Moved, update_map-Moved}
use tp1_so_2c.Tests.{
  aspirin, ibuprofen, curare, products, rosario_stock, rosario, cordoba, world, load, plane,
}

-- The city takes all the aspirin that it needs and all the ibuprofen that there is.
abbrev left : List Stock
left =
    record { amount = pos 0; product = aspirin }
    ∷ record { amount = pos 30; product = ibuprofen }
    ∷ []

abbrev rest : List Stock
rest =
    record { amount = pos 30; product = aspirin }
    ∷ record { amount = pos 0; product = ibuprofen }
    ∷ []

unloads : unload_all rosario_stock load ≡ some (left, rest)
unfolding unload_all unload_stock find_stock discharge ◌-ℤ◌
unloads = refl

abbrev world_after : Map
world_after = record world { cities = record rosario { stock = left } ∷ cordoba ∷ [] }

updates : update_map world plane ≡ some (world_after, record plane { stocks = rest })
unfolding update_map unload_all unload_stock find_stock discharge ◌-ℤ◌
updates = refl

unload_all-Met_example : Met rosario_stock load
unfolding has_product
unload_all-Met_example =
    unload_all-Met rosario_stock load (omega arith) (refl, (refl, tt)) (refl, (refl, tt))

update_map-Moved_example : Moved world plane (world_after, record plane { stocks = rest })
update_map-Moved_example = update_map-Moved world plane (omega arith) (omega arith) updates

get_city_score_lem_example : get_city_score rosario_stock load ≡ unloadable rosario_stock load
get_city_score_lem_example = get_city_score_lem rosario_stock load (omega arith)

get_city_score-unload_all_example : get_city_score left rest ≡ pos 0
unfolding has_product
get_city_score-unload_all_example =
    get_city_score-unload_all rosario_stock load (omega arith) (omega arith) (refl, (refl, tt))
      (refl, (refl, tt)) (refl, (refl, tt)) unloads

-- Curare, which Rosario does not list, is taken for ibuprofen.
unload_stock-absent_example :
    unload_stock
      (record { amount = pos 100; product = aspirin }
        ∷ record { amount = pos 50; product = ibuprofen }
        ∷ [])
      (record { amount = pos 20; product = curare })
    ≡ some (
      record { amount = pos 100; product = aspirin }
          ∷ record { amount = (discharge (pos 50) (pos 20)).0; product = ibuprofen }
          ∷ [],
      record { amount = (discharge (pos 50) (pos 20)).1; product = curare },
    )
unfolding has_product
unload_stock-absent_example =
    unload_stock-absent (record { amount = pos 100; product = aspirin } ∷ [])
      (record { amount = pos 50; product = ibuprofen })
      (record { amount = pos 20; product = curare }) refl

end_simulation_lem_example :
    ((end_simulation world 7 ≡ end_sim) ↔ ((max_turns ≤ 7) ⊎ ((get_map_status world).0 ≡ pos 0)))
    × ((end_simulation world 7 ≡ end_sim) ↔ ((max_turns ≤ 7) ⊎ ((get_map_status world).1 ≡ 2)))
end_simulation_lem_example = end_simulation_lem world 7 (omega arith)

-- The catalogue that `getProduct` builds from the three names.
pub products-IsCatalogue : IsCatalogue products
unfolding get_product
products-IsCatalogue =
    (get_product_lem curare.name
      (get_product_lem ibuprofen.name
        (get_product_lem aspirin.name empty-IsCatalogue (omega arith)).catalogue
        (omega arith)).catalogue
      (omega arith)).catalogue

init_plane-marshalled_example :
    ((marshall_change_stock 1 3 (pos 0) load >>= λ msg. init_plane msg.stocks msg.header world)
      ≡ some (plane, world))
    × ((marshall_check_destinations 1 3 (pos 0) load 5 >>= λ msg.
          init_plane msg.stocks msg.header world)
        ≡ some (plane, world))
init_plane-marshalled_example =
    init_plane-marshalled 1 5 plane world products-IsCatalogue (refl, (refl, tt)) (omega arith)
