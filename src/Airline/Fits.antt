-- ===== src/Airline/Fits.antt =====
-- app/plane.c and app/airline.c: where the threads of the planes may be in a stage.
use tp1_so_2c.Base.{
  ℕ, suc, ◌≡◌, refl, Bool, true, false, List, [], ◌∷◌, Option, none, some, arith, length,
  if◌then◌else◌, ◌==◌, ◌-◌,
}
use mathlib.Core.List.{head-eq_of_cons-eq}
use tp1_so_2c.Base.Int.{ℤ}
use tp1_so_2c.Comm.{MessageType, Message, signal}
use tp1_so_2c.MessageQueue.Ring.{IsValid, contents}
use tp1_so_2c.Plane.{
  PlaneThread, Place, at_step, at_stock, at_continue, at_destinations, returned, exited, fault, Act,
  ready, on_message, send_unload, send_check, end_phase1, end_phase2, stop_at, is_type,
  copy_amounts, set_amounts, after_amounts, Amounts, assigned, negative, unset, copy_destinations,
  choose,
}
use tp1_so_2c.Plane.Flight.{no_end}
use tp1_so_2c.Airline.System.{Worker, is_reading}

-- A thread has still to play its part in the stage: it has something to do or to read, or waits for an
-- answer of the map, or has left before its report.
abbrev pub owes_at : Place → List Message → List Act → Bool
owes_at place ms (a ∷ acts) = true
owes_at place (m ∷ ms) [] = true
owes_at at_step [] [] = false
owes_at at_continue [] [] = false
owes_at returned [] [] = false
owes_at _ [] [] = true

abbrev pub owes : Worker → Bool
owes w = owes_at w.thread.place (contents w.queue) w.todo

-- How many threads have still to play their part.
abbrev pub owing : List Worker → ℕ
owing [] = 0
owing (w ∷ ws) = let rest = owing ws in if owes w then suc rest else rest

abbrev pub HasAtMost : List Message → Type 0
HasAtMost [] = Unit
HasAtMost (m ∷ []) = Unit
HasAtMost _ = ⊥

-- A request, which is sent before the wait for its answer.
abbrev pub Asks : List Act → Type 0
Asks [] = Unit
Asks (ready ∷ _) = ⊥
Asks (_ ∷ []) = Unit
Asks _ = ⊥

-- A report, behind which nothing is done before the next stage.
abbrev pub Reports : List Act → Type 0
Reports [] = Unit
Reports (ready ∷ []) = Unit
Reports _ = ⊥

-- Where a thread may be, with what is in its queue and what it has to do: in the first stage, and in
-- the second one.
abbrev pub FitsAt : Bool → Place → Bool → List Message → List Act → Type 0
FitsAt true at_step done ms todo =
    (done ≡ false) × (ms ≡ signal MessageType.step ∷ []) × (todo ≡ [])
FitsAt true at_stock done ms todo = (done ≡ false) × HasAtMost ms × Asks todo
FitsAt true at_continue done ms todo = (done ≡ false) × (ms ≡ []) × Reports todo
FitsAt true at_destinations done ms todo = ⊥
FitsAt false at_step done ms todo = (done ≡ false) × (ms ≡ []) × Reports todo
FitsAt false at_stock done ms todo = ⊥
FitsAt false at_continue done ms todo =
    (done ≡ false) × (ms ≡ signal MessageType.continue ∷ []) × (todo ≡ [])
FitsAt false at_destinations done ms todo = (done ≡ false) × HasAtMost ms × Asks todo
FitsAt _ returned done ms todo = (done ≡ true) × (ms ≡ []) × Reports todo
FitsAt _ _ done ms todo = (ms ≡ []) × (todo ≡ [])

abbrev pub Fits : Bool → Worker → Type 0
Fits first w = IsValid w.queue × FitsAt first w.thread.place w.thread.done (contents w.queue) w.todo

-- What becomes of a thread that reads the last message of its queue.
abbrev pub Goes : Bool → PlaneThread × List Act → Type 0
Goes first (t, acts) = FitsAt first t.place t.done [] acts × (owes_at t.place [] acts ≡ true)

send_unload-Goes : (t : PlaneThread) → t.done ≡ false → Goes true (send_unload t)
unfolding send_unload
send_unload-Goes t e = ground arith

end_phase1-Goes : (t : PlaneThread) → Goes true (end_phase1 no_end t)
unfolding end_phase1
end_phase1-Goes t = ground arith

end_phase2-Goes : (t : PlaneThread) → Goes false (end_phase2 no_end t)
unfolding end_phase2
end_phase2-Goes t = ground arith

send_check-Goes : (t : PlaneThread) → t.done ≡ false → Goes false (send_check t)
unfolding send_check
send_check-Goes t e = ground arith

after_amounts-Goes :
    (t : PlaneThread) (r : Amounts) → t.done ≡ false → Goes true (after_amounts no_end t r)
unfolding after_amounts
after_amounts-Goes t (assigned ss empty) e =
    end_phase1-Goes
      (record t { plane = record t.plane { stocks = ss }; done = if empty then true else t.done })
after_amounts-Goes t negative e = ((refl, refl), refl)
after_amounts-Goes t unset e = ((refl, refl), refl)

-- The tests of a stretch, one after the other.
if-Goes :
    (first b : Bool) (r r' : PlaneThread × List Act)
    → Goes first r
    → Goes first r'
    → Goes first (if b then r else r')
if-Goes first true r r' g g' = g
if-Goes first false r r' g g' = g'

exited-Goes : (first : Bool) (t : PlaneThread) → Goes first (stop_at exited t)
exited-Goes true t = ((refl, refl), refl)
exited-Goes false t = ((refl, refl), refl)

stock_copied-Goes :
    (t : PlaneThread) (r : Option (List ℤ))
    → t.done ≡ false
    → Goes true (elim r [
      | none ↦ stop_at fault t
      | some deltas ↦ after_amounts no_end t (set_amounts t.plane.stocks deltas)
    ])
stock_copied-Goes t none e = ((refl, refl), refl)
stock_copied-Goes t (some deltas) e = after_amounts-Goes t (set_amounts t.plane.stocks deltas) e

destinations_copied-Goes :
    (t : PlaneThread) (r : Option (List ℕ × List ℕ))
    → Goes false (elim r [
      | none ↦ stop_at fault t
      | some (cities, distances) ↦ end_phase2 no_end (choose t cities distances)
    ])
destinations_copied-Goes t none = ((refl, refl), refl)
destinations_copied-Goes t (some (cities, distances)) = end_phase2-Goes (choose t cities distances)

-- A thread in its place in the stage that reads a message goes to another, and has still a part to play.
pub on_message-Goes :
    (first : Bool) (place : Place) (t : PlaneThread) (msg : Message)
    → is_reading place ≡ true
    → FitsAt first place t.done (msg ∷ []) []
    → Goes first (on_message place no_end t msg)
unfolding on_message
on_message-Goes true at_step t msg r (e, m, _) = rw (head-eq_of_cons-eq m) (
    if-Goes true (t.plane.distance == 0) (send_unload t) (end_phase1 no_end t)
      (send_unload-Goes t e) (end_phase1-Goes t))
on_message-Goes true at_stock t msg r (e, _, _) =
    if-Goes true (is_type msg.type MessageType.stock) _ (stop_at exited t)
      (stock_copied-Goes t (copy_amounts (length t.plane.stocks) msg.payload) e)
      (exited-Goes true t)
on_message-Goes true at_continue t msg r (_, m, _) = cc
on_message-Goes true at_destinations t msg r f = absurd f
on_message-Goes false at_step t msg r (_, m, _) = cc
on_message-Goes false at_stock t msg r f = absurd f
on_message-Goes false at_continue t msg r (e, m, _) = rw (head-eq_of_cons-eq m) (
    if-Goes false (t.plane.distance == 0) (send_check t) _ (send_check-Goes t e)
      (end_phase2-Goes (record t { plane = record t.plane { distance = t.plane.distance - 1 } })))
on_message-Goes false at_destinations t msg r (e, _, _) =
    if-Goes false (is_type msg.type MessageType.destinations) _ (stop_at exited t)
      (destinations_copied-Goes t (copy_destinations msg.payload)) (exited-Goes false t)
on_message-Goes first returned t msg r f = cc
on_message-Goes first exited t msg r f = cc
on_message-Goes first fault t msg r f = cc
