-- ===== src/Airline/Rests.antt =====
-- app/airline.c and app/plane.c: a thread reads and acts as long as it can.
use tp1_so_2c.Base.{
  suc, ◌≡◌, refl, ap, ap₂, sym, ◌∙◌, subst, Bool, true, false, ◌⊎◌, inl, inr, List, [], ◌∷◌, ◌++◌,
  ◌+◌, ◌%◌, get_or, arith, length,
}
use tp1_so_2c.Comm.{Message}
use tp1_so_2c.MessageQueue.{MessageQueue, queue_size, no_message, returns, pop}
use tp1_so_2c.MessageQueue.Ring.{IsValid, contents, count, length-contents}
use tp1_so_2c.Plane.{
  Place, at_step, at_stock, at_continue, at_destinations, returned, exited, fault, Act, ready,
  unload, check, on_message,
}
use tp1_so_2c.Plane.Flight.{no_end}
use tp1_so_2c.Airline.System.{
  Worker, System, Step, stage, answer, Steps, read, act, done, more, perform, is_reading,
}
use tp1_so_2c.Airline.Fits.{owes_at, owes, FitsAt, Fits}
use tp1_so_2c.Airline.Moves.{pop-contents, only_message}
use tp1_so_2c.Airline.Sends.{is_asking}
use tp1_so_2c.Airline.Counts.{AllInPlace, middle, Counted}
use tp1_so_2c.Airline.Kept.{Step-Counted}

-- The thread waits for the map, or has left before its report.
abbrev pub Stays : Worker → Type 0
Stays w =
    (contents w.queue ≡ [])
    × (w.todo ≡ [])
    × ((is_asking w.thread.place ≡ true) ⊎ (w.thread.place ≡ exited) ⊎ (w.thread.place ≡ fault))

pop_some :
    (q : MessageQueue) (m : Message) (ms : List Message)
    → IsValid q
    → contents q ≡ m ∷ ms
    → (q' : MessageQueue) × (msg : Message) × (pop q ≡ (q', returns msg))
unfolding pop
pop_some q m ms v e =
    let some_in : count q ≡ suc (length ms) = sym (length-contents q) ∙ ap length e in
    (
      record q { first = (q.first + 1) % queue_size },
      get_or q.messages q.first no_message,
      ground arith,
    )

-- Where a thread may be that has nothing to do and nothing to read.
idle_place :
    (first : Bool) (place : Place) (d : Bool)
    → FitsAt first place d [] []
    → (owes_at place [] [] ≡ false) ⊎ (is_asking place ≡ true) ⊎ (place ≡ exited) ⊎ (place ≡ fault)
idle_place first at_step d f = inl refl
idle_place first at_stock d f = inr (inl refl)
idle_place first at_continue d f = inl refl
idle_place first at_destinations d f = inr (inl refl)
idle_place first returned d f = inl refl
idle_place first exited d f = inr (inr (inl refl))
idle_place first fault d f = inr (inr (inr refl))

-- A thread with a message in its queue reads it.
reads :
    (first : Bool) (place : Place) (d : Bool) (m : Message) (ms : List Message) (todo : List Act)
    → FitsAt first place d (m ∷ ms) todo
    → is_reading place ≡ true
reads first at_step d m ms todo f = refl
reads first at_stock d m ms todo f = refl
reads first at_continue d m ms todo f = refl
reads first at_destinations d m ms todo f = refl
reads true returned d m ms todo (_, e, _) = cc
reads false returned d m ms todo (_, e, _) = cc
reads true exited d m ms todo (e, _) = cc
reads false exited d m ms todo (e, _) = cc
reads true fault d m ms todo (e, _) = cc
reads false fault d m ms todo (e, _) = cc

-- The step is one of a plane: the map sends nothing.
abbrev IsOwn : {s t : System} → Step s t → Type 0
IsOwn (stage e run) = ⊥
IsOwn (answer before after w msg e answers run) = ⊥
IsOwn (read before after w msg e idle is_read popped run) = Unit
IsOwn (act before after w a acts e todo) = Unit

abbrev pub AllOwn : {s t : System} → Steps s t → Type 0
AllOwn done = Unit
AllOwn (more x xs) = IsOwn x × AllOwn xs

abbrev pub append_steps : {s t u : System} → Steps s t → Steps t u → Steps s u
append_steps done ys = ys
append_steps (more x xs) ys = more x (append_steps xs ys)

pub append_steps-AllOwn :
    {s t u : System} (xs : Steps s t) (ys : Steps t u)
    → AllOwn xs
    → AllOwn ys
    → AllOwn (append_steps xs ys)
append_steps-AllOwn done ys o p = p
append_steps-AllOwn (more x xs) ys o p = (o.0, append_steps-AllOwn xs ys o.1 p)

-- What some threads' own steps reach, with one thread changed and the stage the same.
pub record Reaches (s : System) (before after : List Worker) (P : Worker → Type 0) : Type 0 where
  pub worker : Worker
  pub system : System
  pub steps : Steps s system
  pub own : AllOwn steps
  pub counted : Counted system
  pub workers : system.workers ≡ before ++ worker ∷ after
  pub same : system.started ≡ s.started
  pub holds : P worker

perform_started : (a : Act) (s : System) → (perform a s).started ≡ s.started
perform_started ready s = refl
perform_started (unload m) s = refl
perform_started (check m) s = refl

perform_workers : (a : Act) (s : System) → (perform a s).workers ≡ s.workers
perform_workers ready s = refl
perform_workers (unload m) s = refl
perform_workers (check m) s = refl

-- A thread does all that it has to do.
clears :
    (acts : List Act) (s : System) (before after : List Worker) (w : Worker)
    → Counted s
    → s.workers ≡ before ++ w ∷ after
    → w.todo ≡ acts
    → Reaches s before after (λ w'. w' ≡ record w { todo = [] })
clears [] s before after w c e idle = record {
  worker = w;
  system = s;
  steps = done;
  own = tt;
  counted = c;
  workers = e;
  same = refl;
  holds = ap (λ l. record w { todo = l }) idle;
}
clears (a ∷ acts) s before after w c e todo =
    let x = act {s = s} before after w a acts e todo in
    let s' = record s { workers = before ++ record w { todo = acts } ∷ after } in
    let r =
      clears acts (perform a s') before after (record w { todo = acts }) (Step-Counted x c)
        (perform_workers a s') refl in
    record {
      worker = r.worker;
      system = r.system;
      steps = more x r.steps;
      own = (tt, r.own);
      counted = r.counted;
      workers = r.workers;
      same = r.same ∙ perform_started a s';
      holds = r.holds;
    }

-- A thread that has played its part, or stays.
abbrev pub Rests : Worker → Type 0
Rests w = (owes w ≡ false) ⊎ Stays w

cleared-Rests :
    (first : Bool) (w : Worker) → Fits first w → contents w.queue ≡ [] → w.todo ≡ [] → Rests w
cleared-Rests first w (v, f) empty idle =
    let f' =
      subst (FitsAt first w.thread.place w.thread.done []) idle
        (subst (λ ms. FitsAt first w.thread.place w.thread.done ms w.todo) empty f) in
    elim (idle_place first w.thread.place w.thread.done f') [
      | inl played ↦ inl (ap₂ (owes_at w.thread.place) empty idle ∙ played)
      | inr stays ↦ inr (empty, idle, stays)
    ]

after_steps :
    {s t : System} {before after : List Worker} {P : Worker → Type 0} (xs : Steps s t)
    → AllOwn xs
    → t.started ≡ s.started
    → Reaches t before after P
    → Reaches s before after P
after_steps xs o e r = record {
  worker = r.worker;
  system = r.system;
  steps = append_steps xs r.steps;
  own = append_steps-AllOwn xs r.steps o r.own;
  counted = r.counted;
  workers = r.workers;
  same = r.same ∙ e;
  holds = r.holds;
}

here :
    {P : Worker → Type 0} (s : System) (before after : List Worker) (w : Worker)
    → Counted s
    → s.workers ≡ before ++ w ∷ after
    → P w
    → Reaches s before after P
here s before after w c e p = record {
  worker = w;
  system = s;
  steps = done;
  own = tt;
  counted = c;
  workers = e;
  same = refl;
  holds = p;
}

in_its_place :
    (s : System) (before after : List Worker) (w : Worker)
    → Counted s
    → s.workers ≡ before ++ w ∷ after
    → Fits s.second w
in_its_place s before after w c e =
    middle s.second before after w (subst (AllInPlace s.second) e c.in_place)

-- A thread whose queue is empty does what it has to do, and rests.
comes_to_rest_empty :
    (s : System) (before after : List Worker) (w : Worker)
    → Counted s
    → s.workers ≡ before ++ w ∷ after
    → contents w.queue ≡ []
    → Reaches s before after Rests
comes_to_rest_empty s before after w c e empty =
    let r = clears w.todo s before after w c e refl in
    after_steps r.steps r.own r.same (
      here r.system before after r.worker r.counted r.workers (
        cleared-Rests r.system.second r.worker
          (in_its_place r.system before after r.worker r.counted r.workers)
          (ap (λ w'. contents w'.queue) r.holds ∙ empty) (ap (λ w'. w'.todo) r.holds)))

-- A thread with nothing to do reads what is in its queue.
comes_to_rest_idle :
    (ms : List Message) (s : System) (before after : List Worker) (w : Worker)
    → Counted s
    → s.workers ≡ before ++ w ∷ after
    → contents w.queue ≡ ms
    → w.todo ≡ []
    → Reaches s before after Rests
comes_to_rest_idle [] s before after w c e empty idle =
    comes_to_rest_empty s before after w c e empty
comes_to_rest_idle (m ∷ ms) s before after w c e held idle =
    let (v, f) = in_its_place s before after w c e in
    let f' = subst (FitsAt s.second w.thread.place w.thread.done (contents w.queue)) idle f in
    let is_read =
      reads s.second w.thread.place w.thread.done m ms []
        (subst (λ l. FitsAt s.second w.thread.place w.thread.done l []) held f') in
    let (q, msg, popped) = pop_some w.queue m ms v held in
    let (_, was) = pop-contents v popped in
    let none_left =
      only_message s.second w.thread.place w.thread.done msg (contents q) is_read
        (subst (λ l. FitsAt s.second w.thread.place w.thread.done l []) was f') in
    let (t, acts) = on_message w.thread.place no_end w.thread msg in
    let x = read {s = s} before after w msg e idle is_read popped refl in
    after_steps (more x done) (tt, tt) refl
      (comes_to_rest_empty _ before after (record { queue = q; thread = t; todo = acts })
        (Step-Counted x c) refl none_left)

-- A thread reads and acts as long as it can.
pub comes_to_rest :
    (s : System) (before after : List Worker) (w : Worker)
    → Counted s
    → s.workers ≡ before ++ w ∷ after
    → Reaches s before after Rests
comes_to_rest s before after w c e =
    let r = clears w.todo s before after w c e refl in
    after_steps r.steps r.own r.same (
      comes_to_rest_idle _ r.system before after r.worker r.counted r.workers refl
        (ap (λ w'. w'.todo) r.holds))
