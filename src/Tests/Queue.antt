-- ===== src/Tests/Queue.antt =====
-- Runs of the queue of communication/msgqueue.c, and its theorems at them.
use tp1_so_2c.Base.{◌≡◌, refl, true, false, List, [], ◌∷◌, arith}
use tp1_so_2c.Comm.{Message, MessageType, signal}
use tp1_so_2c.MessageQueue.{MessageQueue, returns, waits, push, pop, peek}
use tp1_so_2c.MessageQueue.Ring.{IsValid}
use tp1_so_2c.MessageQueue.Fifo.{
  Call, push_call, pop_call, peek_call, pushed, popped, peeked, run, spec_run, view, run_refines,
}

abbrev step_message : Message
step_message = signal MessageType.step

abbrev stock_message : Message
stock_message = signal MessageType.stock

-- One message lies in the last slot; the next goes round to the first.
abbrev wrapped : MessageQueue
wrapped = record {
  messages =
      stock_message ∷ step_message ∷ step_message ∷ step_message ∷ step_message ∷ step_message
      ∷ step_message ∷ step_message ∷ step_message ∷ step_message ∷ [];
  first = 9;
  tail = 0;
  closing = false;
}

abbrev calls : List Call
calls = push_call stock_message ∷ peek_call ∷ pop_call ∷ pop_call ∷ pop_call ∷ []

wrapped-IsValid : IsValid wrapped
wrapped-IsValid = omega arith

run-wrapped :
    run wrapped calls
    ≡ pushed (returns true)
      ∷ peeked MessageType.step
      ∷ popped (returns step_message)
      ∷ popped (returns stock_message)
      ∷ popped waits
      ∷ []
unfolding push pop peek
run-wrapped = refl

run_refines_example : run wrapped calls ≡ spec_run (view wrapped) calls
run_refines_example = run_refines calls wrapped-IsValid
