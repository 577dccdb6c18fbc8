-- ===== src/Tests/Safety.antt =====
-- A run of `runMap` on the small world, and the theorems at it.
use tp1_so_2c.Base.{ℕ, zero, suc, ◌<◌, ◌≡◌, ◌≢◌, refl, [], ◌∷◌, ◌++◌, some, arith, length}
use tp1_so_2c.Base.Int.{pos}
use tp1_so_2c.Comm.{AirlineStatus}
use tp1_so_2c.Models.{get_distance}
use tp1_so_2c.Simulation.Turn.{airline_done, airline_status, do_turn}
use tp1_so_2c.Simulation.Turn.Finish.{
  done, all_done, unloads, tells, all_told, EndsAt, do_turn-EndsAt,
}
use tp1_so_2c.Simulation.Turn.Run.{crashed, run_map}
use tp1_so_2c.Simulation.Turn.Run.Pointers.{run_map_safe}
use tp1_so_2c.Simulation.Turn.Sound.{IsSound}
use tp1_so_2c.Tests.{world}
use tp1_so_2c.Tests.Turns.{qsort, inbox, no_exit}
use tp1_so_2c.Tests.Unloading.{products-IsCatalogue}

world_distances :
    (i j : ℕ)
    → i < length world.cities
    → j < length world.cities
    → (d : ℕ) × (get_distance world i (pos j) ≡ some d)
world_distances zero zero x y = (0, refl)
world_distances zero (suc zero) x y = (10, refl)
world_distances (suc zero) zero x y = (10, refl)
world_distances (suc zero) (suc zero) x y = (0, refl)
world_distances (suc (suc i)) j x y = absurd (omega arith)
world_distances zero (suc (suc j)) x y = absurd (omega arith)
world_distances (suc zero) (suc (suc j)) x y = absurd (omega arith)

world-IsSound : IsSound world
world-IsSound = record {
  catalogue = products-IsCatalogue;
  stocked = (omega arith, omega arith, (omega arith, omega arith, tt));
  distances = world_distances;
}

abbrev told : AirlineStatus
told = record { id = 0; planes_flying = 1; total_planes = 1 }

run_map_safe_example : run_map qsort no_exit 1 world inbox ≢ crashed
run_map_safe_example =
    run_map_safe qsort no_exit 1 world inbox world-IsSound
      ((omega arith, omega arith, omega arith, (omega arith, tt)), tt)

-- The one airline answers in both phases, and its next answer waits.
do_turn-EndsAt_example :
    EndsAt world
      (airline_done ∷ [])
      (do_turn qsort 1 world (inbox ++ ((airline_status told ∷ []) ++ (airline_done ∷ []))))
do_turn-EndsAt_example =
    do_turn-EndsAt qsort 1 world inbox (airline_status told ∷ []) (airline_done ∷ []) world-IsSound
      (unloads (done all_done)) (tells all_told)
      ((omega arith, omega arith, omega arith, (omega arith, tt)), tt)
