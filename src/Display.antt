-- ===== src/Display.antt =====
-- app/output.c: the thread that shows the simulation on a terminal, without `WAIT`. What it does to the
-- terminal and to the semaphore is a list of actions.
pub mod Lines
pub mod System
pub mod Pace
pub mod Liveness
use tp1_so_2c.Base.{
  ℕ, suc, ◌+◌, Bool, true, false, List, [], ◌∷◌, ◌++◌, Option, none, some, ltb, if◌then◌else◌,
}
use tp1_so_2c.Comm.{MessageType, Message, Payload, AirlineStatus}

-- The lines of the terminal.
abbrev pub airline_initial_line : ℕ
airline_initial_line = 6

abbrev pub turn_line : ℕ
turn_line = 2

abbrev pub map_line_1 : ℕ
map_line_1 = 3

abbrev pub map_line_2 : ℕ
map_line_2 = 4

abbrev pub final_line_2 : ℕ
final_line_2 = 3

abbrev pub final_line_3 : ℕ
final_line_3 = 4

-- What is written on a line. The percentage of the needs is left out.
pub data Text : Type 0 where
  status_in_turn : (turn : ℕ) → Text
  needs : Text
  cities_done : (satisfied total : ℕ) → Text
  airline_left : AirlineStatus → Text
  is_over ninja : Text

-- `mvprintw`, `erase`, `refresh` and `ipc_sem_post`
pub data Action : Type 0 where
  mvprintw : (line : ℕ) → Text → Action
  erase refresh sem_post : Action

-- The variables of `run_output`.
pub record Display : Type 0 where
  pub turn : ℕ
  pub max_line : ℕ
  pub first_of_turn : Bool

abbrev pub init_display : Display
init_display = record { turn = 0; max_line = airline_initial_line; first_of_turn = true }

-- The body of the loop at the status of the map.
abbrev pub on_map_status : Display → ℕ → ℕ → Display × List Action
on_map_status d satisfied total = (
  record d { turn = suc d.turn; first_of_turn = true },
  mvprintw turn_line (status_in_turn d.turn)
      ∷ mvprintw map_line_1 needs
      ∷ mvprintw map_line_2 (cities_done satisfied total)
      ∷ refresh
      ∷ sem_post
      ∷ [],
)

-- The body of the loop at the status of an airline.
abbrev pub on_airline_status : Display → AirlineStatus → Display × List Action
on_airline_status d s =
    let cur_line = airline_initial_line + s.id in
    (
      record d {
        max_line = if ltb d.max_line cur_line then cur_line else d.max_line;
        first_of_turn = false;
      },
      (if d.first_of_turn then erase ∷ [] else [])
          ++ mvprintw cur_line (airline_left s) ∷ refresh ∷ [],
    )

-- The body of the loop, by the type of the message and by what the sender has set of it. `none`: a
-- payload is read that is not there.
unfoldable pub on_message : Display → MessageType → Payload → Option (Display × List Action)
on_message d MessageType.map_status (Payload.map_status satisfied total) =
    some (on_map_status d satisfied total)
on_message d MessageType.map_status _ = none
on_message d MessageType.airline_status (Payload.airline_status s) = some (on_airline_status d s)
on_message d MessageType.airline_status _ = none
on_message d _ _ = some (d, [])

-- What is written behind the loop.
abbrev pub at_end : Display → List Action
at_end d =
    mvprintw (d.max_line + final_line_2) is_over
    ∷ mvprintw (d.max_line + final_line_3) ninja
    ∷ refresh
    ∷ []

-- How `run_output` ends: after its last message, waiting for one, or at a payload that is not there.
pub data Shown : Type 0 where
  ended : List Action → Shown
  waiting : Display → List Action → Shown
  garbage : Shown

abbrev pub after_actions : List Action → Shown → Shown
after_actions first (ended later) = ended (first ++ later)
after_actions first (waiting d later) = waiting d (first ++ later)
after_actions first garbage = garbage

abbrev pub is_end_output : MessageType → Bool
is_end_output MessageType.end_output = true
is_end_output _ = false

-- `run_output` on the messages that `message_queue_pop` gives it.
unfoldable pub run_output : Display → List Message → Shown
unfolding on_message
run_output d [] = waiting d []
run_output d (m ∷ ms) =
    let next : Shown = elim (on_message d m.type m.payload) [
      | none ↦ garbage
      | some (d', actions) ↦ after_actions actions (run_output d' ms)
    ] in
    if is_end_output m.type then ended (at_end d) else next
