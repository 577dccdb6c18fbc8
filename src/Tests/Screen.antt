-- ===== src/Tests/Screen.antt =====
-- The display of app/output.c beside the map of app/map.c, and the theorems at them.
use tp1_so_2c.Base.{List, [], ◌∷◌, arith}
use tp1_so_2c.Comm.{MessageType, Message, AirlineStatus, signal}
use tp1_so_2c.Models.{Airline}
use tp1_so_2c.Marshall.{marshall_send_airline_status}
use tp1_so_2c.Simulation.Turn.{
  PlaneMessage, airline_done, airline_status, do_turn, start_display, send_airlines_status,
  send_map_status,
}
use tp1_so_2c.Simulation.Turn.Shown.{displayed, airline_message, map_message}
use tp1_so_2c.Simulation.Turn.Told.{IsTold, do_turn-IsTold}
use tp1_so_2c.Display.{init_display, run_output}
use tp1_so_2c.Display.Lines.{IsTidy, run_output-IsTidy}
use tp1_so_2c.Display.System.{System, start, Steps, push, done, more}
use tp1_so_2c.Display.Pace.{IsPaced, Steps-IsPaced}
use tp1_so_2c.Display.Liveness.{CaughtUp, catches_up}
use tp1_so_2c.Tests.{world, plane}
use tp1_so_2c.Tests.Turns.{qsort}

abbrev flying : AirlineStatus
flying = record { id = 4; planes_flying = 1; total_planes = 2 }

abbrev shown : List Message
shown = airline_message flying ∷ map_message 1 2 ∷ signal MessageType.end_output ∷ []

run_output-IsTidy_example : IsTidy 6 (run_output init_display shown)
run_output-IsTidy_example = run_output-IsTidy init_display shown (tt, (tt, (tt, tt)))

-- An airline that has no plane to unload.
abbrev quiet : List PlaneMessage
quiet = airline_done ∷ airline_status flying ∷ []

abbrev airlines : List Airline
airlines = record { id = 0; planes = plane ∷ [] } ∷ []

abbrev at_start : System
at_start = start airlines world quiet

-- The first message is pushed.
abbrev pushed : System
pushed = record at_start {
  outbox = displayed (send_map_status world ∷ []);
  queue = airline_message (record { id = 0; planes_flying = 1; total_planes = 1 }) ∷ [];
}

one_step : Steps qsort 1 at_start pushed
unfolding start_display send_airlines_status marshall_send_airline_status
one_step = more (push (omega arith)) done

Steps-IsPaced_example : IsPaced pushed
Steps-IsPaced_example = Steps-IsPaced qsort airlines world quiet pushed one_step

catches_up_example : CaughtUp qsort 1 pushed
catches_up_example = catches_up qsort airlines world quiet pushed one_step

do_turn-IsTold_example : IsTold 1 quiet (do_turn qsort 1 world quiet)
do_turn-IsTold_example = do_turn-IsTold qsort 1 world quiet
