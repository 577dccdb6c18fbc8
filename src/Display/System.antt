-- ===== src/Display/System.antt =====
-- app/map.c, app/output.c and communication/msgqueue.c: the map and the display, with the queue and the
-- semaphore between them, as a step relation.
use tp1_so_2c.Base.{ℕ, suc, Bool, true, false, ◌+◌, ◌<◌, ◌≡◌, List, [], ◌∷◌, ◌++◌, some, length}
use tp1_so_2c.Comm.{Message}
use tp1_so_2c.Models.{Map, Airline}
use tp1_so_2c.Simulation.Offer.{QSort, city_info_comparator}
use tp1_so_2c.Simulation.Turn.{PlaneMessage, Sent, finished, do_turn, start_display}
use tp1_so_2c.Simulation.Turn.Shown.{displayed}
use tp1_so_2c.Display.{
  Display, Action, mvprintw, erase, refresh, sem_post, init_display, on_message,
}

-- How often the semaphore is posted.
abbrev pub posts : List Action → ℕ
posts [] = 0
posts (sem_post ∷ actions) = suc (posts actions)
posts (mvprintw line text ∷ actions) = posts actions
posts (erase ∷ actions) = posts actions
posts (refresh ∷ actions) = posts actions

-- The map, the messages that wait for it, how many turns it has started, and whether it is within one, past
-- the semaphore; what it has still to push before its turn is over; the queue, the semaphore and the display.
pub record System : Type 0 where
  pub map : Map
  pub inbox : List PlaneMessage
  pub turn : ℕ
  pub in_turn : Bool
  pub outbox : List Message
  pub queue : List Message
  pub sem : ℕ
  pub display : Display

-- The start of both threads.
abbrev pub start : List Airline → Map → List PlaneMessage → System
start airlines m inbox = record {
  map = m;
  inbox = inbox;
  turn = 0;
  in_turn = false;
  outbox = displayed (start_display airlines m);
  queue = [];
  sem = 1;
  display = init_display;
}

-- The map passes the semaphore, and plays the turn when the airlines have sent what it waits for; it pushes
-- a message, if the queue has room; the display takes a message out. A turn for which the airlines never send
-- enough is one that is not played. What the turn shows is pushed from when it has been played.
pub data Step (qsort : QSort city_info_comparator) (n : ℕ) : System → System → Type 0 where
  enter :
      {m : Map} {inbox : List PlaneMessage} {turn sem : ℕ} {queue : List Message} {d : Display}
      → Step qsort n
          (record {
            map = m;
            inbox = inbox;
            turn = turn;
            in_turn = false;
            outbox = [];
            queue = queue;
            sem = suc sem;
            display = d;
          })
          (record {
            map = m;
            inbox = inbox;
            turn = suc turn;
            in_turn = true;
            outbox = [];
            queue = queue;
            sem = sem;
            display = d;
          })
  play :
      {m m' : Map} {inbox inbox' : List PlaneMessage} {sent : List Sent} {turn sem : ℕ}
      {queue : List Message} {d : Display}
      → do_turn qsort n m inbox ≡ finished m' inbox' sent
      → Step qsort n
          (record {
            map = m;
            inbox = inbox;
            turn = turn;
            in_turn = true;
            outbox = [];
            queue = queue;
            sem = sem;
            display = d;
          })
          (record {
            map = m';
            inbox = inbox';
            turn = turn;
            in_turn = false;
            outbox = displayed sent;
            queue = queue;
            sem = sem;
            display = d;
          })
  push :
      {m : Map} {inbox : List PlaneMessage} {turn sem : ℕ} {in_turn : Bool} {msg : Message}
      {outbox queue : List Message} {d : Display}
      → length queue < 9
      → Step qsort n
          (record {
            map = m;
            inbox = inbox;
            turn = turn;
            in_turn = in_turn;
            outbox = msg ∷ outbox;
            queue = queue;
            sem = sem;
            display = d;
          })
          (record {
            map = m;
            inbox = inbox;
            turn = turn;
            in_turn = in_turn;
            outbox = outbox;
            queue = queue ++ msg ∷ [];
            sem = sem;
            display = d;
          })
  pop :
      {m : Map} {inbox : List PlaneMessage} {turn sem : ℕ} {in_turn : Bool} {msg : Message}
      {outbox queue : List Message} {d d' : Display} {actions : List Action}
      → on_message d msg.type msg.payload ≡ some (d', actions)
      → Step qsort n
          (record {
            map = m;
            inbox = inbox;
            turn = turn;
            in_turn = in_turn;
            outbox = outbox;
            queue = msg ∷ queue;
            sem = sem;
            display = d;
          })
          (record {
            map = m;
            inbox = inbox;
            turn = turn;
            in_turn = in_turn;
            outbox = outbox;
            queue = queue;
            sem = sem + posts actions;
            display = d';
          })

pub data Steps (qsort : QSort city_info_comparator) (n : ℕ) : System → System → Type 0 where
  done : {s : System} → Steps qsort n s s
  more : {s t u : System} → Step qsort n s t → Steps qsort n t u → Steps qsort n s u
