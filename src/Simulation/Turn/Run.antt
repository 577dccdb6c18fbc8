-- ===== src/Simulation/Turn/Run.antt =====
-- app/map.c, `runMap`: the loop over the turns, from the first test to the last.
pub mod Pointers
use tp1_so_2c.Base.{
  ℕ, zero, suc, ◌+◌, ◌≤◌, ◌<◌, ◌≡◌, refl, ap, sym, ◌∙◌, ◌⊎◌, inl, inr, Bool, List, arith,
  if◌then◌else◌,
}
use native.Mathlib.Decide.{dec_lt}
use tp1_so_2c.Base.Int.{pos}
use tp1_so_2c.Models.{Map}
use tp1_so_2c.Simulation.Status.{continue_sim, end_sim, max_turns, end_simulation}
use tp1_so_2c.Simulation.Status.Laws.{
  map_total, AllNonNegative, end_simulation_lem, get_map_status_lem,
}
use tp1_so_2c.Simulation.Offer.{QSort, city_info_comparator}
use tp1_so_2c.Simulation.Effects.{Shrinks}
use tp1_so_2c.Simulation.Turn.{PlaneMessage, Phase, finished, blocked, fault, do_turn}
use tp1_so_2c.Simulation.Turn.Phases.{
  AreNonNegative, Keeps, Shrinks-refl, Shrinks-trans, do_turn-Keeps,
}

-- How `runMap` ends: by its loop's test after some turns, by the exit flag, waiting for a message, or at
-- a fault. `out_of_fuel` is no end of the source.
pub data End : Type 0 where
  ended : Map → (turn : ℕ) → End
  stopped : Map → (turn : ℕ) → End
  waiting : Map → (turn : ℕ) → End
  crashed : End
  out_of_fuel : End

-- `*exitState` is set by a signal handler at any time: what the test of the loop and the test behind
-- the semaphore read in each turn is a parameter.
pub record ExitState : Type 0 where
  pub at_loop : ℕ → Bool
  pub at_wait : ℕ → Bool

-- Whether the loop is left before a turn's work: by its test, or by the `break` behind the wait.
pub data Leave : Type 0 where
  by_exit by_end stay : Leave

pub test_loop : ExitState → Map → ℕ → Leave
test_loop exit m turn = if exit.at_loop turn then by_exit else elim (end_simulation m turn) [
  | end_sim ↦ by_end
  | continue_sim ↦ if exit.at_wait turn then by_exit else stay
]

-- What the loop does when a turn is over.
pub after_turn : (Map → List PlaneMessage → End) → ℕ → Phase → End
after_turn next turn (finished m inbox sent) = next m inbox
after_turn next turn (blocked m sent) = waiting m turn
after_turn next turn fault = crashed

-- One round of the loop, by the outcome of the tests; the work of the turn is `p`.
pub round : Leave → (Map → List PlaneMessage → End) → Map → ℕ → Phase → End
unfolding after_turn
round by_exit next m turn p = stopped m turn
round by_end next m turn p = ended m turn
round stay next m turn p = after_turn next turn p

-- The loop, with fuel for the number of turns.
pub run_turns : ℕ → QSort city_info_comparator → ExitState → ℕ → Map → ℕ → List PlaneMessage → End
unfolding test_loop round
run_turns zero qsort exit airlines m turn inbox = out_of_fuel
run_turns (suc fuel) qsort exit airlines m turn inbox =
    round (test_loop exit m turn)
      (λ m' inbox'. run_turns fuel qsort exit airlines m' (turn + 1) inbox') m turn
      (do_turn qsort airlines m inbox)

-- `runMap`, with fuel for every turn that `endSimulation` allows and for the last test. What it sends
-- to the display before the first turn is `start_display`.
pub run_map : QSort city_info_comparator → ExitState → ℕ → Map → List PlaneMessage → End
unfolding run_turns
run_map qsort exit airlines m inbox = run_turns (suc max_turns) qsort exit airlines m 0 inbox

-- What holds of the map at the end.
abbrev pub EndsWell : Map → End → Type 0
EndsWell m (ended m' turn) =
    Shrinks m m' × (turn ≤ max_turns) × ((turn ≡ max_turns) ⊎ (map_total m'.cities ≡ pos 0))
EndsWell m (stopped m' turn) = Shrinks m m' × (turn ≤ max_turns)
EndsWell m (waiting m' turn) = Shrinks m m' × (turn < max_turns)
EndsWell m crashed = Unit
EndsWell m out_of_fuel = ⊥

EndsWell-from : {a b : Map} (e : End) → Shrinks a b → EndsWell b e → EndsWell a e
EndsWell-from (ended m turn) s w = (Shrinks-trans s w.0, w.1, w.2)
EndsWell-from (stopped m turn) s w = (Shrinks-trans s w.0, w.1)
EndsWell-from (waiting m turn) s w = (Shrinks-trans s w.0, w.1)
EndsWell-from crashed s w = tt
EndsWell-from out_of_fuel s w = w

left_by_end :
    (exit : ExitState) (m : Map) (turn : ℕ)
    → test_loop exit m turn ≡ by_end
    → end_simulation m turn ≡ end_sim
unfolding test_loop
left_by_end exit m turn e = ground arith

stays :
    (exit : ExitState) (m : Map) (turn : ℕ)
    → test_loop exit m turn ≡ stay
    → end_simulation m turn ≡ continue_sim
unfolding test_loop
stays exit m turn e = ground arith

ended_well :
    (m : Map) (turn : ℕ)
    → AllNonNegative m.cities
    → turn ≤ max_turns
    → end_simulation m turn ≡ end_sim
    → (turn ≡ max_turns) ⊎ (map_total m.cities ≡ pos 0)
ended_well m turn h le e = elim ((end_simulation_lem m turn h).0.0 e) [
  | inl late ↦ inl (omega arith)
  | inr none ↦ inr (sym (ap (λ p. p.0) (get_map_status_lem m)) ∙ none)
]

in_time :
    (m : Map) (turn : ℕ)
    → AllNonNegative m.cities
    → turn ≤ max_turns
    → end_simulation m turn ≡ continue_sim
    → turn < max_turns
in_time m turn h le e = elim (dec_lt turn max_turns) [
  | yes p ↦ p
  | no late ↦
      let over : end_simulation m turn ≡ end_sim =
        (end_simulation_lem m turn h).0.1 (inl (omega arith)) in
      cc
]

module _ (qsort : QSort city_info_comparator) (exit : ExitState) (airlines : ℕ) where
  after_turn-EndsWell :
      (m : Map) (turn : ℕ) (next : Map → List PlaneMessage → End) (p : Phase)
      → turn < max_turns
      → Keeps m p
      → ((m' : Map) (inbox : List PlaneMessage)
          → AllNonNegative m'.cities
          → AreNonNegative inbox
          → EndsWell m' (next m' inbox))
      → EndsWell m (after_turn next turn p)
  unfolding after_turn
  after_turn-EndsWell m turn next (finished m' inbox sent) lt k more =
      EndsWell-from (next m' inbox) k.0 (more m' inbox k.0.nonneg k.1)
  after_turn-EndsWell m turn next (blocked m' sent) lt k more = (k, lt)
  after_turn-EndsWell m turn next fault lt k more = tt

  round-EndsWell :
      (l : Leave) (m : Map) (turn : ℕ) (next : Map → List PlaneMessage → End) (p : Phase)
      → test_loop exit m turn ≡ l
      → turn ≤ max_turns
      → AllNonNegative m.cities
      → Keeps m p
      → (turn < max_turns
          → (m' : Map) (inbox : List PlaneMessage) → AllNonNegative m'.cities
          → AreNonNegative inbox
          → EndsWell m' (next m' inbox))
      → EndsWell m (round l next m turn p)
  unfolding round
  round-EndsWell by_exit m turn next p e le h k more = (Shrinks-refl m h, le)
  round-EndsWell by_end m turn next p e le h k more =
      (Shrinks-refl m h, le, ended_well m turn h le (left_by_end exit m turn e))
  round-EndsWell stay m turn next p e le h k more =
      let lt : turn < max_turns = in_time m turn h le (stays exit m turn e) in
      after_turn-EndsWell m turn next p lt k (more lt)

  run_turns-EndsWell :
      (fuel : ℕ) (m : Map) (turn : ℕ) (inbox : List PlaneMessage)
      → turn + fuel ≡ suc max_turns
      → turn ≤ max_turns
      → AllNonNegative m.cities
      → AreNonNegative inbox
      → EndsWell m (run_turns fuel qsort exit airlines m turn inbox)
  unfolding run_turns
  run_turns-EndsWell zero m turn inbox e le h hm = absurd (omega arith)
  run_turns-EndsWell (suc fuel) m turn inbox e le h hm =
      round-EndsWell (test_loop exit m turn) m turn _ _ refl le h
        (do_turn-Keeps qsort airlines m inbox h hm)
        (λ lt m' inbox' h' hm'.
          run_turns-EndsWell fuel m' (turn + 1) inbox' (omega arith) (omega arith) h' hm')

  -- `runMap` on a map and messages with no negative amount never needs more than its 70000 turns. If it
  -- ends by its own test, then in turn 70000 or with no need left; and unless it crashes, the needs
  -- have not grown and none is negative.
  pub run_map-EndsWell :
      (m : Map) (inbox : List PlaneMessage)
      → AllNonNegative m.cities
      → AreNonNegative inbox
      → EndsWell m (run_map qsort exit airlines m inbox)
  unfolding run_map
  run_map-EndsWell m inbox h hm =
      run_turns-EndsWell (suc max_turns) m 0 inbox (omega arith) (omega arith) h hm
