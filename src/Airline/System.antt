-- ===== src/Airline/System.antt =====
-- app/airline.c and app/plane.c: the process of an airline with the threads of its planes, as a step
-- relation, up to the end message. The map sends a stage when the one before is answered, steps and
-- continues in turn, and answers a request once.
use tp1_so_2c.Base.{ℕ, suc, ◌≡◌, Bool, true, false, not, List, [], ◌∷◌, ◌++◌, map, some, length}
use tp1_so_2c.Base.Int.{ℤ, pos}
use tp1_so_2c.Comm.{Message}
use tp1_so_2c.Models
use tp1_so_2c.Models.{Plane}
use tp1_so_2c.MessageQueue.{MessageQueue, returns, create, pop}
use tp1_so_2c.MessageQueue.Ring.{contents}
use tp1_so_2c.Plane.{
  PlaneThread, Place, at_step, at_stock, at_continue, at_destinations, Act, ready, unload, check,
  on_message,
}
use tp1_so_2c.Plane.Flight.{no_end}
use tp1_so_2c.Airline.{
  Airline, Thread, Sent, MapMessage, step, continue, destinations, unload_stock, on_map_message,
  plane_ready,
}

-- A `struct PlaneThread` with its queue, and what the thread has still to do before it waits again.
pub record Worker : Type 0 where
  pub queue : MessageQueue
  pub thread : PlaneThread
  pub todo : List Act

-- The variables of the process; what the planes have asked the map, and what the airline has told it,
-- both with the newest first. Of the map: how many stages it has sent, and whether the next one is a
-- second stage.
pub record System : Type 0 where
  pub id : ℕ
  pub workers : List Worker
  pub left : ℤ
  pub stage : ℕ
  pub requests : List Act
  pub answers : List Sent
  pub started : ℕ
  pub second : Bool

-- `bootstrap_planes`
unfoldable pub bootstrap_planes : Models.Airline → List Worker
bootstrap_planes a =
    map
      (λ plane. record {
        queue = create;
        thread = record { plane = plane; airline = a.id; done = false; place = at_step };
        todo = [];
      })
      a.planes

-- `run_airline` before its loop.
abbrev pub start : Models.Airline → System
start a = record {
  id = a.id;
  workers = bootstrap_planes a;
  left = pos 0;
  stage = 0;
  requests = [];
  answers = [];
  started = 0;
  second = false;
}

abbrev pub thread_of : Worker → Thread
thread_of w = record { queue = w.queue; done = w.thread.done }

-- The process as `listen` sees it.
abbrev pub view : System → Airline
view s = record {
  id = s.id;
  threads = map thread_of s.workers;
  planes_left_in_stage = s.left;
  stage = s.stage;
  exit_state = 0;
}

abbrev pub requeue : List Worker → List Thread → List Worker
requeue [] ts = []
requeue (w ∷ ws) [] = w ∷ ws
requeue (w ∷ ws) (t ∷ ts) = record w { queue = t.queue } ∷ requeue ws ts

-- The process after a round of `listen`.
abbrev pub handled : System → Airline → List Sent → System
handled s a sent = record s {
  workers = requeue s.workers a.threads;
  left = a.planes_left_in_stage;
  stage = a.stage;
  answers = sent ++ s.answers;
}

abbrev pub stage_message : Bool → MapMessage
stage_message false = step
stage_message true = continue

-- The message answers the request of the thread, whose number is `i`.
abbrev pub Answers : Worker → ℕ → MapMessage → Type 0
Answers w i (destinations m) =
    (m.plane_id ≡ i) × (w.thread.place ≡ at_destinations) × (contents w.queue ≡ []) × (w.todo ≡ [])
Answers w i (unload_stock m) =
    (m.header.id ≡ i) × (w.thread.place ≡ at_stock) × (contents w.queue ≡ []) × (w.todo ≡ [])
Answers w i _ = ⊥

-- A thread that reads its queue.
abbrev pub is_reading : Place → Bool
is_reading at_step = true
is_reading at_stock = true
is_reading at_continue = true
is_reading at_destinations = true
is_reading _ = false

-- What a thread does to the rest: a report goes to the airline, a request to the map.
abbrev pub perform : Act → System → System
perform ready s =
    let (a, sent) = plane_ready (view s) in
    record s { left = a.planes_left_in_stage; answers = sent ++ s.answers }
perform (unload m) s = record s { requests = unload m ∷ s.requests }
perform (check m) s = record s { requests = check m ∷ s.requests }

-- The map sends a stage, or the answer to a request; a thread reads a message, or does what it has to.
pub data Step : System → System → Type 0 where
  stage :
      {s : System} {a : Airline} {sent : List Sent}
      → s.started ≡ length s.answers
      → on_map_message (view s) (stage_message s.second) ≡ some (a, sent, true)
      → Step s (record (handled s a sent) { started = suc s.started; second = not s.second })
  answer :
      {s : System} {a : Airline} {sent : List Sent} (before after : List Worker) (w : Worker)
      (msg : MapMessage)
      → s.workers ≡ before ++ w ∷ after
      → Answers w (length before) msg
      → on_map_message (view s) msg ≡ some (a, sent, true)
      → Step s (handled s a sent)
  read :
      {s : System} {q : MessageQueue} {t : PlaneThread} {acts : List Act}
      (before after : List Worker) (w : Worker) (msg : Message)
      → s.workers ≡ before ++ w ∷ after
      → w.todo ≡ []
      → is_reading w.thread.place ≡ true
      → pop w.queue ≡ (q, returns msg)
      → on_message w.thread.place no_end w.thread msg ≡ (t, acts)
      → Step s
          (record s { workers = before ++ record { queue = q; thread = t; todo = acts } ∷ after })
  act :
      {s : System} (before after : List Worker) (w : Worker) (a : Act) (acts : List Act)
      → s.workers ≡ before ++ w ∷ after
      → w.todo ≡ a ∷ acts
      → Step s (perform a (record s { workers = before ++ record w { todo = acts } ∷ after }))

pub data Steps : System → System → Type 0 where
  done : {s : System} → Steps s s
  more : {s t u : System} → Step s t → Steps t u → Steps s u
