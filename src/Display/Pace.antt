-- ===== src/Display/Pace.antt =====
-- app/map.c and app/output.c: the semaphore, and the statuses between the map and the display.
use tp1_so_2c.Base.{
  ℕ, ◌+◌, ◌≡◌, refl, ap, sym, subst, Bool, true, false, List, [], ◌∷◌, ◌++◌, Option, none, some,
  length, arith, if◌then◌else◌,
}
use mathlib.Core.List.{append_assoc, append-nil}
use tp1_so_2c.Comm.{MessageType, Message, Payload}
use tp1_so_2c.Models.{Map, Airline}
use tp1_so_2c.Simulation.Offer.{QSort, city_info_comparator}
use tp1_so_2c.Simulation.Turn.{PlaneMessage}
use tp1_so_2c.Simulation.Turn.Shown.{
  displayed, IsTurn, map_shown, airline_shown, Shows, do_turn-IsTurn, start_display-IsTurn,
}
use tp1_so_2c.Display.{
  Display, Action, mvprintw, erase, refresh, on_message, Text, airline_left, airline_initial_line,
}
use tp1_so_2c.Display.Lines.{AllSet}
use tp1_so_2c.Display.System.{posts, System, start, Step, enter, play, push, pop, Steps, done, more}

-- How many of some messages are the status of the map.
abbrev is_map_status : MessageType → ℕ
is_map_status MessageType.map_status = 1
is_map_status _ = 0

abbrev pub map_statuses : List Message → ℕ
map_statuses [] = 0
map_statuses (m ∷ ms) = is_map_status m.type + map_statuses ms

-- The messages on their way to the display.
abbrev pub unseen : System → List Message
unseen s = s.queue ++ s.outbox

-- The status of a turn that is not over is still to come.
abbrev pub coming : Bool → ℕ
coming true = 1
coming false = 0

-- Of the semaphore and the statuses of the map that the display has not seen, with the one of a turn that is
-- not over, there are always two; the semaphore and the turns that have started are one more than the display has shown; and the payload of
-- a message on its way is that of its type.
pub record IsPaced (s : System) : Type 0 where
  pub two : s.sem + coming s.in_turn + map_statuses (unseen s) ≡ 2
  pub shown : s.sem + s.turn ≡ 1 + s.display.turn
  pub are_set : AllSet (unseen s)

IsTurn-statuses : {n : ℕ} {ms : List Message} → IsTurn n ms → map_statuses ms ≡ 1
IsTurn-statuses map_shown = refl
IsTurn-statuses (airline_shown t) = omega (arith, IsTurn-statuses t)

IsTurn-AllSet : {n : ℕ} {ms : List Message} → IsTurn n ms → AllSet ms
IsTurn-AllSet map_shown = (tt, tt)
IsTurn-AllSet (airline_shown t) = (tt, IsTurn-AllSet t)

statuses-append : (a b : List Message) → map_statuses (a ++ b) ≡ map_statuses a + map_statuses b
statuses-append [] b = omega arith
statuses-append (m ∷ a) b = omega (arith, statuses-append a b)

AllSet-append : (a b : List Message) → AllSet a → AllSet b → AllSet (a ++ b)
AllSet-append [] b h k = k
AllSet-append (m ∷ a) b h k = (h.0, AllSet-append a b h.1 k)

pushed :
    (queue outbox : List Message) (msg : Message)
    → queue ++ msg ∷ outbox ≡ (queue ++ msg ∷ []) ++ outbox
pushed queue outbox msg = sym (append_assoc queue (msg ∷ []) outbox)

start-IsPaced :
    (airlines : List Airline) (m : Map) (inbox : List PlaneMessage)
    → IsPaced (start airlines m inbox)
start-IsPaced airlines m inbox =
    let t = start_display-IsTurn airlines m in
    record { two = omega (arith, IsTurn-statuses t); shown = refl; are_set = IsTurn-AllSet t }

-- What a message does to the semaphore and to the turns that are shown.
abbrev Counted : Display → MessageType → Option (Display × List Action) → Type 0
Counted d t none = Unit
Counted d t (some (d', actions)) =
    (posts actions ≡ is_map_status t) × (d'.turn ≡ d.turn + is_map_status t)

posts-airline :
    (b : Bool) (line : ℕ) (text : Text)
    → posts ((if b then erase ∷ [] else []) ++ mvprintw line text ∷ refresh ∷ []) ≡ 0
posts-airline true line text = refl
posts-airline false line text = refl

on_message-Counted : (d : Display) (t : MessageType) (p : Payload) → Counted d t (on_message d t p)
unfolding on_message
on_message-Counted d MessageType.map_status Payload.unset = tt
on_message-Counted d MessageType.map_status (Payload.destinations n to far) = tt
on_message-Counted d MessageType.map_status (Payload.stock n delta) = tt
on_message-Counted d MessageType.map_status (Payload.airline_status s) = tt
on_message-Counted d MessageType.map_status (Payload.map_status satisfied total) =
    (refl, omega arith)
on_message-Counted d MessageType.airline_status Payload.unset = tt
on_message-Counted d MessageType.airline_status (Payload.destinations n to far) = tt
on_message-Counted d MessageType.airline_status (Payload.stock n delta) = tt
on_message-Counted d MessageType.airline_status (Payload.map_status n m) = tt
on_message-Counted d MessageType.airline_status (Payload.airline_status s) =
    (posts-airline d.first_of_turn (airline_initial_line + s.id) (airline_left s), omega arith)
on_message-Counted d MessageType.none p = (refl, omega arith)
on_message-Counted d MessageType.continue p = (refl, omega arith)
on_message-Counted d MessageType.destinations p = (refl, omega arith)
on_message-Counted d MessageType.step p = (refl, omega arith)
on_message-Counted d MessageType.stock p = (refl, omega arith)
on_message-Counted d MessageType.airline_done p = (refl, omega arith)
on_message-Counted d MessageType.unload_stock p = (refl, omega arith)
on_message-Counted d MessageType.check_destinations p = (refl, omega arith)
on_message-Counted d MessageType.end p = (refl, omega arith)
on_message-Counted d MessageType.end_output p = (refl, omega arith)
on_message-Counted d MessageType.last p = (refl, omega arith)

pub Step-IsPaced :
    {qsort : QSort city_info_comparator} {n : ℕ} {s t : System}
    → Step qsort n s t
    → IsPaced s
    → IsPaced t
Step-IsPaced (enter {sem = sem} {queue = queue}) p = record {
  two = omega (arith, p.two);
  shown = omega (arith, p.shown);
  are_set = p.are_set;
}
Step-IsPaced {qsort} {n} (play {m = m} {inbox = inbox} {sent = sent} {queue = queue} run) p =
    let t = subst (Shows (IsTurn n)) run (do_turn-IsTurn qsort n m inbox) in
    record {
      two = omega (
        arith,
        p.two,
        statuses-append queue (displayed sent),
        IsTurn-statuses t,
        ap map_statuses (append-nil queue),
      );
      shown = omega (arith, p.shown);
      are_set =
          AllSet-append queue (displayed sent) (subst AllSet (append-nil queue) p.are_set)
            (IsTurn-AllSet t);
    }
Step-IsPaced (push {msg = msg} {outbox = outbox} {queue = queue} room) p = record {
  two = omega (arith, p.two, ap map_statuses (pushed queue outbox msg));
  shown = p.shown;
  are_set = subst AllSet (pushed queue outbox msg) p.are_set;
}
Step-IsPaced (pop {msg = msg} {d = d} {d' = d'} e) p =
    let x = subst (Counted d msg.type) e (on_message-Counted d msg.type msg.payload) in
    record {
      two = omega (arith, p.two, x.0);
      shown = omega (arith, p.shown, x.0, x.1);
      are_set = p.are_set.1;
    }

-- The map and the display, from their start on, whatever the airlines send: of the semaphore and the
-- statuses of the map that are not yet shown, with the one of a turn that is not over, there are always two; the semaphore and the turns that
-- have started are always one more than the statuses that are shown, so that no turn starts before the
-- status of the turn before the last is shown; and no payload is read that is not set.
pub Steps-IsPaced :
    (qsort : QSort city_info_comparator) (airlines : List Airline) (m : Map)
    (inbox : List PlaneMessage) (s : System)
    → Steps qsort (length airlines) (start airlines m inbox) s
    → IsPaced s
Steps-IsPaced qsort airlines m inbox s r = from r (start-IsPaced airlines m inbox)
  where
    from : {a b : System} → Steps qsort (length airlines) a b → IsPaced a → IsPaced b
    from done p = p
    from (more x r) p = from r (Step-IsPaced x p)
