-- ===== src/Airline/Sends.antt =====
-- app/airline.c: what a message of the airline does to the place of a thread in the stage.
use tp1_so_2c.Base.{
  ◌<◌, ◌≡◌, refl, ap, ap₂, sym, ◌∙◌, subst, Bool, true, false, not, ◌⊎◌, inr, List, [], ◌∷◌, ◌++◌,
  some, arith, length, if◌then◌else◌,
}
use tp1_so_2c.Comm.{MessageType, Message, signal}
use tp1_so_2c.MessageQueue.{MessageQueue, push}
use tp1_so_2c.MessageQueue.Ring.{contents, push-IsValid}
use tp1_so_2c.Plane.{
  Place, at_step, at_stock, at_continue, at_destinations, returned, exited, fault, Act,
}
use tp1_so_2c.Airline.{deliver}
use tp1_so_2c.Airline.Broadcast.{reached, reach_one, push_room, deliver_lem}
use tp1_so_2c.Airline.System.{Worker, thread_of}
use tp1_so_2c.Airline.Fits.{owes_at, owes, FitsAt, Fits}

-- The message that starts the next stage.
abbrev pub next_signal : Bool → Message
next_signal true = signal MessageType.continue
next_signal false = signal MessageType.step

-- What is in the queue of a thread when the next stage has started.
abbrev pub sent_next : Bool → Bool → List Message → List Message
sent_next first done ms = if done then ms else ms ++ next_signal first ∷ []

no_todo :
    (place : Place) (ms : List Message) (todo : List Act)
    → owes_at place ms todo ≡ false
    → todo ≡ []
no_todo place ms [] rests = refl
no_todo place ms (a ∷ acts) rests = cc

-- A thread that has no part left in a stage has one in the next, if it is not done.
next-FitsAt :
    (first : Bool) (place : Place) (done : Bool) (ms : List Message) (todo : List Act)
    → FitsAt first place done ms todo
    → owes_at place ms todo ≡ false
    → (ms ≡ [])
      × FitsAt (not first) place done (sent_next first done ms) todo
      × (owes_at place (sent_next first done ms) todo ≡ not done)
next-FitsAt first place done ms (a ∷ todo) f rests = cc
next-FitsAt first place done (m ∷ ms) [] f rests = cc
next-FitsAt true at_step done [] [] f rests = cc
next-FitsAt true at_stock done [] [] f rests = cc
next-FitsAt true at_continue true [] [] (e, _, _) rests = cc
next-FitsAt true at_continue false [] [] f rests = (refl, (refl, refl, refl), refl)
next-FitsAt true at_destinations done [] [] f rests = cc
next-FitsAt false at_step true [] [] (e, _, _) rests = cc
next-FitsAt false at_step false [] [] f rests = (refl, (refl, refl, refl), refl)
next-FitsAt false at_stock done [] [] f rests = cc
next-FitsAt false at_continue done [] [] (_, m, _) rests = cc
next-FitsAt false at_destinations done [] [] f rests = cc
next-FitsAt true returned true [] [] f rests = (refl, (refl, refl, tt), refl)
next-FitsAt false returned true [] [] f rests = (refl, (refl, refl, tt), refl)
next-FitsAt true returned false [] [] (e, _, _) rests = cc
next-FitsAt false returned false [] [] (e, _, _) rests = cc
next-FitsAt first exited done [] [] f rests = cc
next-FitsAt first fault done [] [] f rests = cc

-- The same of the thread when the airline has sent it the message.
pub next-Fits :
    (first : Bool) (w : Worker)
    → Fits first w
    → owes w ≡ false
    → let w' : Worker = record w { queue = (reached (next_signal first) (thread_of w)).queue } in
      ((w.thread.done ≡ true) ⊎ (length (contents w.queue) < 9))
      × Fits (not first) w'
      × (owes w' ≡ not w.thread.done)
next-Fits first w (v, f) rests =
    let (empty, f', due) =
      next-FitsAt first w.thread.place w.thread.done (contents w.queue) w.todo f rests in
    let room : length (contents w.queue) < 9 = omega (arith, ap length empty) in
    let (_, v', _, held) = reach_one (next_signal first) w.queue w.thread.done v (inr room) in
    (
      inr room,
      (v', subst (λ ms. FitsAt (not first) w.thread.place w.thread.done ms w.todo) (sym held) f'),
      ap (λ ms. owes_at w.thread.place ms w.todo) held ∙ due,
    )

-- The thread waits for an answer of the map.
abbrev pub is_asking : Place → Bool
is_asking at_stock = true
is_asking at_destinations = true
is_asking _ = false

answered-FitsAt :
    (first : Bool) (place : Place) (done : Bool) (msg : Message)
    → FitsAt first place done [] []
    → is_asking place ≡ true
    → FitsAt first place done (msg ∷ []) [] × (owes_at place [] [] ≡ true)
answered-FitsAt true at_stock done msg (e, _, _) asks = ((e, tt, tt), refl)
answered-FitsAt true at_destinations done msg f asks = absurd f
answered-FitsAt false at_stock done msg f asks = absurd f
answered-FitsAt false at_destinations done msg (e, _, _) asks = ((e, tt, tt), refl)
answered-FitsAt first at_step done msg f asks = cc
answered-FitsAt first at_continue done msg f asks = cc
answered-FitsAt first returned done msg f asks = cc
answered-FitsAt first exited done msg f asks = cc
answered-FitsAt first fault done msg f asks = cc

-- What the airline does with an answer for the thread.
pub record Delivered (first : Bool) (w : Worker) (msg : Message) : Type 0 where
  pub queue : MessageQueue
  pub went : deliver msg (thread_of w) ≡ some (record { queue = queue; done = w.thread.done })
  pub fits : Fits first (record w { queue = queue })
  pub due : owes w ≡ true
  pub still_due : owes (record w { queue = queue }) ≡ true

pub answer-Fits :
    (first : Bool) (w : Worker) (msg : Message)
    → Fits first w
    → is_asking w.thread.place ≡ true
    → contents w.queue ≡ []
    → w.todo ≡ []
    → Delivered first w msg
answer-Fits first w msg (v, f) asks empty idle =
    let (f', due) =
      answered-FitsAt first w.thread.place w.thread.done msg
        (subst (FitsAt first w.thread.place w.thread.done []) idle
          (subst (λ ms. FitsAt first w.thread.place w.thread.done ms w.todo) empty f))
        asks in
    let (pushed, held) = push_room msg v (omega (arith, ap length empty)) in
    let one : contents (push w.queue msg).0 ≡ msg ∷ [] = held ∙ ap (λ ms. ms ++ msg ∷ []) empty in
    record {
      queue = (push w.queue msg).0;
      went = deliver_lem msg (thread_of w) pushed;
      fits = (
        push-IsValid msg v,
        subst (FitsAt first w.thread.place w.thread.done (contents (push w.queue msg).0)) (sym idle)
            (subst (λ ms. FitsAt first w.thread.place w.thread.done ms []) (sym one) f'),
      );
      due = ap₂ (owes_at w.thread.place) empty idle ∙ due;
      still_due = ap₂ (owes_at w.thread.place) one idle;
    }
