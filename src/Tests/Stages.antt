-- ===== src/Tests/Stages.antt =====
-- An airline of app/airline.c with one plane of app/plane.c in its first stage, and the theorems at it.
use tp1_so_2c.Base.{◌≡◌, refl, true, false, List, [], ◌∷◌, some}
use tp1_so_2c.Base.Int.{pos}
use tp1_so_2c.Comm.{MessageType, signal}
use tp1_so_2c.Models
use tp1_so_2c.MessageQueue.{create, push, pop}
use tp1_so_2c.Plane.{at_step, at_continue, ready, on_message}
use tp1_so_2c.Airline.{Airline, Sent, step, on_map_message, broadcast, start_phase, count_flying}
use tp1_so_2c.Airline.System.{
  Worker, System, Steps, stage, read, done, more, start, bootstrap_planes, view,
}
use tp1_so_2c.Airline.Counts.{Counted}
use tp1_so_2c.Airline.Kept.{Steps-Counted}
use tp1_so_2c.Airline.Progress.{Quiet, planes-Quiet, listen_goes_on}
use tp1_so_2c.Airline.Progress
use tp1_so_2c.Tests.{plane}

abbrev far : Models.Plane
far = record plane { id = 0; distance = 2 }

abbrev line : Models.Airline
line = record { id = 4; planes = far ∷ [] }

-- The step is in the queue of the plane.
abbrev told : Worker
told = record {
  queue = (push create (signal MessageType.step)).0;
  thread = record { plane = far; airline = 4; done = false; place = at_step };
  todo = [];
}

abbrev stepping : System
stepping = record (start line) { workers = told ∷ []; left = pos 1; started = 1; second = true }

-- The plane has read it and is about to report.
abbrev flying : Worker
flying = record {
  queue = (pop told.queue).0;
  thread = record told.thread { place = at_continue };
  todo = ready ∷ [];
}

abbrev reporting : System
reporting = record stepping { workers = flying ∷ [] }

run_one : Steps (start line) stepping
unfolding bootstrap_planes create push broadcast start_phase count_flying on_map_message
run_one = more (stage refl refl) done

run_two : Steps (start line) reporting
unfolding bootstrap_planes create push pop broadcast start_phase count_flying on_map_message
    on_message
run_two =
    more (stage refl refl) (
      more (read {s = stepping} [] [] told (signal MessageType.step) refl refl refl refl refl) done)

Steps-Counted_example : Counted reporting
Steps-Counted_example = Steps-Counted line reporting run_two

planes-Quiet_example : Quiet reporting
planes-Quiet_example = planes-Quiet line reporting run_two

listen_goes_on_example :
    (a : Airline) × (sent : List Sent) × (on_map_message (view (start line)) step
      ≡ some (a, sent, true))
listen_goes_on_example = listen_goes_on line (start line) step done (Progress.stage refl)
