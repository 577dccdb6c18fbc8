-- ===== src/MessageQueue/Fifo.antt =====
-- The queue of communication/msgqueue.c against a bounded first-in-first-out list, for any order in
-- which threads enter the mutex.
use tp1_so_2c.Base.{
  ℕ, ◌≡◌, refl, Bool, true, false, List, [], ◌∷◌, ◌++◌, arith, length, if◌then◌else◌, ◌==◌, ◌∙◌, ap,
  ap₂,
}
use tp1_so_2c.Comm.{Message, MessageType}
use tp1_so_2c.MessageQueue.{
  MessageQueue, no_message, Outcome, returns, waits, pop, pop_woken, push, push_woken, peek,
  destroy,
}
use tp1_so_2c.MessageQueue.Ring.{
  IsValid, contents, count, length-contents, slots-head, slots-set, pop-IsValid, push-IsValid,
}

-- What the queue promises: at most nine messages, and whether it is being destroyed.
pub record Fifo : Type 0 where
  pub items : List Message
  pub closing : Bool

abbrev pub capacity : ℕ
capacity = 9

-- A stretch under the mutex: a call, or its continuation when `pthread_cond_wait` returns.
pub data Call : Type 0 where
  push_call push_wakes : Message → Call
  pop_call pop_wakes peek_call destroy_call : Call

pub data Reply : Type 0 where
  pushed : Outcome Bool → Reply
  popped : Outcome Message → Reply
  peeked : MessageType → Reply
  destroyed : Reply

abbrev pub take_first : List Message → Bool → Fifo × Reply
take_first [] c = (record { items = []; closing = c }, popped waits)
take_first (m ∷ ms) c = (record { items = ms; closing = c }, popped (returns m))

abbrev pub add_last : List Message → Bool → Message → Fifo × Reply
add_last ms c m =
    if length ms == capacity
    then (record { items = ms; closing = c }, pushed waits)
    else (record { items = ms ++ m ∷ []; closing = c }, pushed (returns true))

abbrev pub first_type : List Message → MessageType
first_type [] = MessageType.none
first_type (m ∷ ms) = m.type

abbrev pub spec_step : Fifo → Call → Fifo × Reply
spec_step s (push_call m) = add_last s.items s.closing m
spec_step s (push_wakes m) =
    if s.closing then (s, pushed (returns false)) else add_last s.items s.closing m
spec_step s pop_call = take_first s.items s.closing
spec_step s pop_wakes =
    if s.closing then (s, popped (returns no_message)) else take_first s.items s.closing
spec_step s peek_call = (s, peeked (first_type s.items))
spec_step s destroy_call = (record s { closing = true }, destroyed)

abbrev pub step : MessageQueue → Call → MessageQueue × Reply
step q (push_call m) = let (q', r) = push q m in (q', pushed r)
step q (push_wakes m) = let (q', r) = push_woken q m in (q', pushed r)
step q pop_call = let (q', r) = pop q in (q', popped r)
step q pop_wakes = let (q', r) = pop_woken q in (q', popped r)
step q peek_call = (q, peeked (peek q))
step q destroy_call = (destroy q, destroyed)

abbrev pub run : MessageQueue → List Call → List Reply
run q [] = []
run q (c ∷ cs) = (step q c).1 ∷ run (step q c).0 cs

abbrev pub spec_run : Fifo → List Call → List Reply
spec_run s [] = []
spec_run s (c ∷ cs) = (spec_step s c).1 ∷ spec_run (spec_step s c).0 cs

abbrev pub view : MessageQueue → Fifo
view q = record { items = contents q; closing = q.closing }

push_refines :
    {q : MessageQueue} (m : Message)
    → IsValid q
    → let (q', r) = push q m in (view q', pushed r) ≡ add_last (contents q) q.closing m
unfolding push
push_refines {q} m v =
    ground (arith, length-contents q, slots-set q.messages m (count q) q.first q.tail)

pop_refines :
    {q : MessageQueue}
    → IsValid q
    → let (q', r) = pop q in (view q', popped r) ≡ take_first (contents q) q.closing
unfolding pop
pop_refines {q} v = ground (arith, slots-head q.messages q.first (count q))

peek_refines : {q : MessageQueue} → IsValid q → peek q ≡ first_type (contents q)
unfolding peek
peek_refines {q} v = ground (arith, slots-head q.messages q.first (count q))

pub step_refines :
    {q : MessageQueue} (c : Call)
    → IsValid q
    → (view (step q c).0, (step q c).1) ≡ spec_step (view q) c
unfolding push_woken pop_woken destroy
step_refines (push_call m) v = push_refines m v
step_refines {q} (push_wakes m) v = ground (arith, push_refines m v)
step_refines pop_call v = pop_refines v
step_refines {q} pop_wakes v = ground (arith, pop_refines v)
step_refines peek_call v = ground (arith, peek_refines v)
step_refines destroy_call v = refl

pub step-IsValid : {q : MessageQueue} (c : Call) → IsValid q → IsValid (step q c).0
unfolding push_woken pop_woken destroy
step-IsValid (push_call m) v = push-IsValid m v
step-IsValid (push_wakes m) v = ground (arith, push-IsValid m v)
step-IsValid pop_call v = pop-IsValid v
step-IsValid {q} pop_wakes v = ground (arith, pop-IsValid v)
step-IsValid peek_call v = v
step-IsValid destroy_call v = record {
  storage = v.storage;
  first_in = v.first_in;
  tail_in = v.tail_in;
}

-- Whatever the threads do, and in whatever order they enter the mutex: a valid queue gives the
-- replies of a first-in-first-out list of at most nine messages (one fewer than the array has slots).
pub run_refines : (cs : List Call) {q : MessageQueue} → IsValid q → run q cs ≡ spec_run (view q) cs
run_refines [] v = refl
run_refines (c ∷ cs) {q} v =
    ap₂ ◌∷◌ (ap (λ p. p.1) (step_refines c v))
      (run_refines cs (step-IsValid c v) ∙ ap (λ p. spec_run p.0 cs) (step_refines c v))
