-- ===== src/Airline/Moves.antt =====
-- app/plane.c and app/airline.c: what a thread, or a message of the airline, does to the place of the
-- thread in the stage.
use mathlib.Core.List.{tail-eq_of_cons-eq}
use tp1_so_2c.Base.{◌≡◌, refl, ap, ap₂, sym, ◌∙◌, subst, Bool, true, false, List, [], ◌∷◌, arith}
use tp1_so_2c.Comm.{Message}
use tp1_so_2c.MessageQueue.{MessageQueue, returns, pop}
use tp1_so_2c.MessageQueue.Ring.{IsValid, contents, count, slots-head}
use tp1_so_2c.Plane.{
  PlaneThread, Place, at_step, at_stock, at_continue, at_destinations, returned, exited, fault, Act,
  ready, unload, check, on_message,
}
use tp1_so_2c.Plane.Flight.{no_end}
use tp1_so_2c.Airline.System.{Worker, is_reading}
use tp1_so_2c.Airline.Fits.{owes_at, owes, FitsAt, Fits, Goes, Asks, Reports, on_message-Goes}

pub pop-contents :
    {q q' : MessageQueue} {msg : Message}
    → IsValid q
    → pop q ≡ (q', returns msg)
    → IsValid q' × (contents q ≡ msg ∷ contents q')
unfolding pop
pop-contents {q} v e = ground (arith, slots-head q.messages q.first (count q))

pub only_message :
    (first : Bool) (place : Place) (done : Bool) (msg : Message) (ms : List Message)
    → is_reading place ≡ true
    → FitsAt first place done (msg ∷ ms) []
    → ms ≡ []
only_message true at_step done msg ms r (_, m, _) = tail-eq_of_cons-eq m
only_message true at_stock done msg [] r f = refl
only_message true at_stock done msg (m ∷ ms) r (_, many, _) = absurd many
only_message true at_continue done msg ms r f = cc
only_message true at_destinations done msg ms r f = absurd f
only_message false at_step done msg ms r f = cc
only_message false at_stock done msg ms r f = absurd f
only_message false at_continue done msg ms r (_, m, _) = tail-eq_of_cons-eq m
only_message false at_destinations done msg [] r f = refl
only_message false at_destinations done msg (m ∷ ms) r (_, many, _) = absurd many
only_message first returned done msg ms r f = cc
only_message first exited done msg ms r f = cc
only_message first fault done msg ms r f = cc

-- A thread that reads a message has still a part to play, before and after.
pub read-Fits :
    (first : Bool) (w : Worker) (q : MessageQueue) (msg : Message) (t : PlaneThread)
    (acts : List Act)
    → Fits first w
    → w.todo ≡ []
    → is_reading w.thread.place ≡ true
    → pop w.queue ≡ (q, returns msg)
    → on_message w.thread.place no_end w.thread msg ≡ (t, acts)
    → let w' : Worker = record { queue = q; thread = t; todo = acts } in
      Fits first w' × (owes w ≡ true) × (owes w' ≡ true)
read-Fits first w q msg t acts (v, f) idle r popped goes =
    let (v', held) = pop-contents v popped in
    let f' : FitsAt first w.thread.place w.thread.done (msg ∷ contents q) [] =
      subst (λ ms. FitsAt first w.thread.place w.thread.done ms []) held
        (subst (FitsAt first w.thread.place w.thread.done (contents w.queue)) idle f) in
    let none_left = only_message first w.thread.place w.thread.done msg (contents q) r f' in
    let g =
      on_message-Goes first w.thread.place w.thread msg r
        (subst (λ ms. FitsAt first w.thread.place w.thread.done (msg ∷ ms) []) none_left f') in
    let (g', due) = subst (Goes first) goes g in
    (
      (v', subst (λ ms. FitsAt first t.place t.done ms acts) (sym none_left) g'),
      ap₂ (owes_at w.thread.place) held idle ∙ refl,
      ap (λ ms. owes_at t.place ms acts) none_left ∙ due,
    )

-- What a thread has still to do after an act.
abbrev pub left_by : Act → Bool
left_by ready = false
left_by (unload m) = true
left_by (check m) = true

reported :
    (place : Place) (ms : List Message) (a : Act) (acts : List Act)
    → owes_at place [] [] ≡ false
    → ms ≡ []
    → Reports (a ∷ acts)
    → Reports acts × (owes_at place ms acts ≡ left_by a)
reported place ms ready [] rests held r = (tt, ap (λ l. owes_at place l []) held ∙ rests)
reported place ms ready (b ∷ acts) rests held r = absurd r
reported place ms (unload m) acts rests held r = absurd r
reported place ms (check m) acts rests held r = absurd r

asked :
    (place : Place) (ms : List Message) (a : Act) (acts : List Act)
    → owes_at place [] [] ≡ true
    → Asks (a ∷ acts)
    → Asks acts × (owes_at place ms acts ≡ left_by a)
asked place [] (unload m) [] due asks = (tt, due)
asked place (x ∷ ms) (unload m) [] due asks = (tt, refl)
asked place [] (check m) [] due asks = (tt, due)
asked place (x ∷ ms) (check m) [] due asks = (tt, refl)
asked place ms (unload m) (b ∷ acts) due asks = absurd asks
asked place ms (check m) (b ∷ acts) due asks = absurd asks
asked place ms ready acts due asks = absurd asks

act-FitsAt :
    (first : Bool) (place : Place) (done : Bool) (ms : List Message) (a : Act) (acts : List Act)
    → FitsAt first place done ms (a ∷ acts)
    → FitsAt first place done ms acts × (owes_at place ms acts ≡ left_by a)
act-FitsAt true at_step done ms a acts (_, _, e) = cc
act-FitsAt true at_stock done ms a acts (e, few, asks) =
    let (asks', due) = asked at_stock ms a acts refl asks in ((e, few, asks'), due)
act-FitsAt true at_continue done ms a acts (e, held, r) =
    let (r', due) = reported at_continue ms a acts refl held r in ((e, held, r'), due)
act-FitsAt true at_destinations done ms a acts f = absurd f
act-FitsAt false at_step done ms a acts (e, held, r) =
    let (r', due) = reported at_step ms a acts refl held r in ((e, held, r'), due)
act-FitsAt false at_stock done ms a acts f = absurd f
act-FitsAt false at_continue done ms a acts (_, _, e) = cc
act-FitsAt false at_destinations done ms a acts (e, few, asks) =
    let (asks', due) = asked at_destinations ms a acts refl asks in ((e, few, asks'), due)
act-FitsAt true returned done ms a acts (e, held, r) =
    let (r', due) = reported returned ms a acts refl held r in ((e, held, r'), due)
act-FitsAt false returned done ms a acts (e, held, r) =
    let (r', due) = reported returned ms a acts refl held r in ((e, held, r'), due)
act-FitsAt true exited done ms a acts (_, e) = cc
act-FitsAt false exited done ms a acts (_, e) = cc
act-FitsAt true fault done ms a acts (_, e) = cc
act-FitsAt false fault done ms a acts (_, e) = cc

-- A thread that does something has a part to play before, and afterwards if it was not its report.
pub act-Fits :
    (first : Bool) (w : Worker) (a : Act) (acts : List Act)
    → Fits first w
    → w.todo ≡ a ∷ acts
    → let w' : Worker = record w { todo = acts } in
      Fits first w' × (owes w ≡ true) × (owes w' ≡ left_by a)
act-Fits first w a acts (v, f) e =
    let (f', due) =
      act-FitsAt first w.thread.place w.thread.done (contents w.queue) a acts
        (subst (FitsAt first w.thread.place w.thread.done (contents w.queue)) e f) in
    ((v, f'), ap (owes_at w.thread.place (contents w.queue)) e, due)
