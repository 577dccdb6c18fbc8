-- ===== src/Plane/Flight.antt =====
-- app/plane.c: a plane in flight.
use tp1_so_2c.Base.{
  ℕ, zero, suc, ◌≡◌, refl, ap, ◌∙◌, false, List, [], ◌∷◌, ◌++◌, arith, ◌==◌, if◌then◌else◌, ◌-◌,
}
use tp1_so_2c.Comm.{MessageType, Message, signal}
use tp1_so_2c.Models.{Plane}
use tp1_so_2c.Plane.{
  PlaneThread, at_step, at_continue, send_unload, send_check, Act, ready, Peeks, on_message,
  read_all, end_phase1,
}

-- No end message is seen.
abbrev pub no_end : Peeks
no_end = record {
  end_before_unload = false;
  end_in_unload = false;
  end_before_ready = false;
  end_before_continue = false;
  end_before_check = false;
  end_before_second_ready = false;
}

-- The messages of some turns: a step and a continue in each.
abbrev pub turns : ℕ → List (Peeks × Message)
turns zero = []
turns (suc n) = (no_end, signal MessageType.step) ∷ (no_end, signal MessageType.continue) ∷ turns n

abbrev pub readies : ℕ → List Act
readies zero = []
readies (suc n) = ready ∷ ready ∷ readies n

-- A thread that waits for a step, with its plane at a distance.
abbrev pub flying : Plane → ℕ → ℕ → PlaneThread
flying plane airline d = record {
  plane = record plane { distance = d };
  airline = airline;
  done = false;
  place = at_step;
}

less_one : (d : ℕ) → suc d - 1 ≡ d
less_one d = omega arith

not_zero : (d : ℕ) → (suc d == 0) ≡ false
not_zero d = ground arith

step_in_flight :
    (plane : Plane) (airline d : ℕ)
    → on_message at_step no_end (flying plane airline (suc d)) (signal MessageType.step)
      ≡ (record (flying plane airline (suc d)) { place = at_continue }, ready ∷ [])
unfolding on_message
step_in_flight plane airline d =
    ap
      (λ b.
        if b
        then send_unload (flying plane airline (suc d))
        else end_phase1 no_end (flying plane airline (suc d)))
      (not_zero d)

continue_in_flight :
    (plane : Plane) (airline d : ℕ)
    → on_message at_continue no_end
        (record (flying plane airline (suc d)) { place = at_continue })
        (signal MessageType.continue)
      ≡ (flying plane airline d, ready ∷ [])
unfolding on_message
continue_in_flight plane airline d =
    ap
      (λ b.
        if b
        then send_check (record (flying plane airline (suc d)) { place = at_continue })
        else (flying plane airline (suc d - 1), ready ∷ []))
      (not_zero d)
    ∙ ap (λ k. (flying plane airline k, ready ∷ [])) (less_one d)

one_turn :
    (plane : Plane) (airline d : ℕ) (msgs : List (Peeks × Message))
    → read_all
        (flying plane airline (suc d))
        ((no_end, signal MessageType.step) ∷ (no_end, signal MessageType.continue) ∷ msgs)
      ≡ (let rest = read_all (flying plane airline d) msgs in (rest.0, ready ∷ ready ∷ rest.1))
unfolding read_all
one_turn plane airline d msgs =
    ap
      (λ r.
        let rest = read_all r.0 ((no_end, signal MessageType.continue) ∷ msgs) in
        (rest.0, r.1 ++ rest.1))
      (step_in_flight plane airline d)
    ∙ ap (λ r. let rest = read_all r.0 msgs in (rest.0, ready ∷ (r.1 ++ rest.1)))
        (continue_in_flight plane airline d)

-- A plane that is on its way, at distance `d`, arrives after exactly `d` turns if no end message comes:
-- it has reported itself ready twice in each turn, has sent nothing to the map, and is as it was but
-- for the distance.
pub flight :
    (plane : Plane) (airline d : ℕ)
    → read_all (flying plane airline d) (turns d) ≡ (flying plane airline 0, readies d)
unfolding read_all
flight plane airline zero = refl
flight plane airline (suc d) =
    one_turn plane airline d (turns d)
    ∙ ap (λ r. (r.0, ready ∷ ready ∷ r.1)) (flight plane airline d)
