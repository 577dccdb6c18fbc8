-- ===== src/Display/Liveness.antt =====
-- app/map.c, app/output.c and communication/msgqueue.c: how the display catches up with the map.
use tp1_so_2c.Base.{ℕ, ◌+◌, ◌≡◌, refl, ap, ◌∙◌, Bool, List, [], ◌∷◌, length, arith}
use tp1_so_2c.Comm.{Message}
use tp1_so_2c.Models.{Map, Airline}
use tp1_so_2c.Simulation.Offer.{QSort, city_info_comparator}
use tp1_so_2c.Simulation.Turn.{PlaneMessage}
use tp1_so_2c.Display.{Display}
use tp1_so_2c.Display.Lines.{Handled-message}
use tp1_so_2c.Display.System.{System, start, Step, push, pop, Steps, done, more}
use tp1_so_2c.Display.Pace.{coming, IsPaced, Step-IsPaced, Steps-IsPaced}

-- A state that some steps reach in which the display has nothing left to show.
pub record CaughtUp (qsort : QSort city_info_comparator) (n : ℕ) (s : System) : Type 0 where
  pub system : System
  pub steps : Steps qsort n s system
  pub no_queue : system.queue ≡ []
  pub no_outbox : system.outbox ≡ []
  pub same_turn : system.turn ≡ s.turn
  pub still_in_turn : system.in_turn ≡ s.in_turn
  pub two_posts : system.sem + coming s.in_turn ≡ 2
  pub shown : system.display.turn + coming s.in_turn ≡ s.turn + 1

module _ (qsort : QSort city_info_comparator) (n : ℕ) where
  after :
      {s t : System}
      → Step qsort n s t
      → t.turn ≡ s.turn
      → t.in_turn ≡ s.in_turn
      → CaughtUp qsort n t
      → CaughtUp qsort n s
  after x e f c = record {
    system = c.system;
    steps = more x c.steps;
    no_queue = c.no_queue;
    no_outbox = c.no_outbox;
    same_turn = c.same_turn ∙ e;
    still_in_turn = c.still_in_turn ∙ f;
    two_posts = omega (arith, c.two_posts, ap coming f);
    shown = omega (arith, c.shown, e, ap coming f);
  }

  catch_up :
      (outbox queue : List Message) (m : Map) (inbox : List PlaneMessage) (turn sem : ℕ)
      (in_turn : Bool) (d : Display)
      → let s : System = record {
        map = m;
        inbox = inbox;
        turn = turn;
        in_turn = in_turn;
        outbox = outbox;
        queue = queue;
        sem = sem;
        display = d;
      } in
        IsPaced s → CaughtUp qsort n s
  catch_up [] [] m inbox turn sem in_turn d p = record {
    system = record {
      map = m;
      inbox = inbox;
      turn = turn;
      in_turn = in_turn;
      outbox = [];
      queue = [];
      sem = sem;
      display = d;
    };
    steps = done;
    no_queue = refl;
    no_outbox = refl;
    same_turn = refl;
    still_in_turn = refl;
    two_posts = omega (arith, p.two);
    shown = omega (arith, p.two, p.shown);
  }
  catch_up outbox (msg ∷ queue) m inbox turn sem in_turn d p =
      let h = Handled-message d msg.type msg.payload p.are_set.0 in
      let x : Step qsort n _ _ =
        pop {m = m} {inbox = inbox} {turn = turn} {sem = sem} {in_turn = in_turn} {msg = msg}
          {outbox = outbox} {queue = queue} {d = d} h.made in
      after x refl refl (catch_up outbox queue m inbox turn _ in_turn h.display (Step-IsPaced x p))
  catch_up (msg ∷ outbox) [] m inbox turn sem in_turn d p =
      let x : Step qsort n _ _ =
        push {m = m} {inbox = inbox} {turn = turn} {sem = sem} {in_turn = in_turn} {msg = msg}
          {outbox = outbox} {queue = []} {d = d} (omega arith) in
      after x refl refl (catch_up outbox (msg ∷ []) m inbox turn sem in_turn d (Step-IsPaced x p))

-- From every state of the map and the display, pushes and pops alone (no turn is started, and one that is
-- under way stays so) lead to a state in which nothing is on its way to the display, which has shown the
-- status of every turn that is over. Between two turns the semaphore is then 2, so that the next turn can
-- start; while the map waits within a turn for the airlines it is 1.
pub catches_up :
    (qsort : QSort city_info_comparator) (airlines : List Airline) (m : Map)
    (inbox : List PlaneMessage) (s : System)
    → Steps qsort (length airlines) (start airlines m inbox) s
    → CaughtUp qsort (length airlines) s
catches_up qsort airlines m inbox s r =
    catch_up qsort (length airlines) s.outbox s.queue s.map s.inbox s.turn s.sem s.in_turn s.display
      (Steps-IsPaced qsort airlines m inbox s r)
