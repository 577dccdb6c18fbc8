-- ===== src/Simulation/Turn/Run/Pointers.antt =====
-- app/map.c, `runMap`: the pointers of a whole run.
use tp1_so_2c.Base.{ℕ, zero, suc, ◌+◌, ◌≢◌, subst, List}
use tp1_so_2c.Models.{Map}
use tp1_so_2c.Simulation.Status.{max_turns}
use tp1_so_2c.Simulation.Offer.{QSort, city_info_comparator}
use tp1_so_2c.Simulation.Turn.{PlaneMessage, Phase, finished, blocked, fault, do_turn}
use tp1_so_2c.Simulation.Turn.Run.{
  ExitState, Leave, by_exit, by_end, stay, End, crashed, test_loop, after_turn, round, run_turns,
  run_map,
}
use tp1_so_2c.Simulation.Turn.Sound.{IsSound}
use tp1_so_2c.Simulation.Turn.Safe.{AllFit, IsSafe, do_turn-IsSafe}

abbrev IsNoCrash : End → Type 0
IsNoCrash crashed = ⊥
IsNoCrash _ = Unit

-- A round of the loop, if the rounds behind it crash nowhere.
round-IsNoCrash :
    (n : ℕ) (l : Leave) (next : Map → List PlaneMessage → End) (m : Map) (turn : ℕ) (p : Phase)
    → ((m' : Map) (inbox : List PlaneMessage)
        → IsSound m'
        → AllFit n m' inbox
        → IsNoCrash (next m' inbox))
    → IsSafe n p
    → IsNoCrash (round l next m turn p)
unfolding round after_turn
round-IsNoCrash n by_exit next m turn p more h = tt
round-IsNoCrash n by_end next m turn p more h = tt
round-IsNoCrash n stay next m turn (finished m' inbox sent) more h = more m' inbox h.0 h.1
round-IsNoCrash n stay next m turn (blocked m' sent) more h = tt
round-IsNoCrash n stay next m turn fault more h = absurd h

module _ (qsort : QSort city_info_comparator) (n : ℕ) where
  run_turns-IsNoCrash :
      (fuel : ℕ) (exit : ExitState) (m : Map) (turn : ℕ) (inbox : List PlaneMessage)
      → IsSound m
      → AllFit n m inbox
      → IsNoCrash (run_turns fuel qsort exit n m turn inbox)
  unfolding run_turns
  run_turns-IsNoCrash zero exit m turn inbox s f = tt
  run_turns-IsNoCrash (suc fuel) exit m turn inbox s f =
      round-IsNoCrash n (test_loop exit m turn) _ m turn (do_turn qsort n m inbox)
        (λ m' inbox' s' f'. run_turns-IsNoCrash fuel exit m' (turn + 1) inbox' s' f')
        (do_turn-IsSafe qsort n m inbox s f)

-- `runMap` never goes through a bad pointer, nor outside of an array, if the map is sound and every message,
-- those of any later turn included, comes from an airline and a city that exist, with at most 50
-- stocks, all of products of the map: whatever the messages are else, and in whatever order they come.
pub run_map_safe :
    (qsort : QSort city_info_comparator) (exit : ExitState) (n : ℕ) (m : Map)
    (inbox : List PlaneMessage)
    → IsSound m
    → AllFit n m inbox
    → run_map qsort exit n m inbox ≢ crashed
unfolding run_map
run_map_safe qsort exit n m inbox s f e =
    subst (IsNoCrash) e (run_turns-IsNoCrash qsort n (suc max_turns) exit m 0 inbox s f)
