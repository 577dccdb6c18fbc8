-- ===== src/MessageQueue.antt =====
-- communication/msgqueue.c: the bounded queue of messages that a mutex and two condition variables
-- guard. A function of the source runs under the mutex from its entry, or from a wake-up, to its
-- return or to the next wait; each such stretch is one function here.
pub mod Ring
pub mod Fifo
pub mod Order
use tp1_so_2c.Base.{
  ℕ, ◌+◌, ◌%◌, Bool, true, false, List, arith, ◌==◌, if◌then◌else◌, get_or, set, replicate,
}
use tp1_so_2c.Comm.{Message, MessageType, signal}

abbrev pub queue_size : ℕ
queue_size = 10

-- `struct MessageQueue`, less the mutex and the conditions.
pub record MessageQueue : Type 0 where
  pub messages : List Message
  pub first : ℕ
  pub tail : ℕ
  pub closing : Bool

-- Where a stretch under the mutex ends: in a return, or in `pthread_cond_wait`.
pub data Outcome (A : Type 0) : Type 0 where
  returns : A → Outcome A
  waits : Outcome A

abbrev pub no_message : Message
no_message = signal MessageType.none

abbrev next_slot : ℕ → ℕ
next_slot i = (i + 1) % queue_size

-- `message_queue_create` when `malloc` succeeds. The slots start with any content.
unfoldable pub create : MessageQueue
create = record { messages = replicate queue_size no_message; first = 0; tail = 0; closing = false }

-- `message_queue_pop` from the test of its loop on.
unfoldable pub pop : MessageQueue → MessageQueue × Outcome Message
pop q =
    if q.first == q.tail
    then (q, waits)
    else (record q { first = next_slot q.first }, returns (get_or q.messages q.first no_message))

-- `message_queue_pop` after `pthread_cond_wait` has returned.
pub pop_woken : MessageQueue → MessageQueue × Outcome Message
pop_woken q = if q.closing then (q, returns no_message) else pop q

-- `message_queue_push` from the test of its loop on.
unfoldable pub push : MessageQueue → Message → MessageQueue × Outcome Bool
push q msg =
    if next_slot q.tail == q.first
    then (q, waits)
    else (record q { messages = set q.messages q.tail msg; tail = next_slot q.tail }, returns true)

-- `message_queue_push` after a wait. `false` is the return on a closing queue, with nothing pushed.
pub push_woken : MessageQueue → Message → MessageQueue × Outcome Bool
push_woken q msg = if q.closing then (q, returns false) else push q msg

-- `message_queue_peek`
unfoldable pub peek : MessageQueue → MessageType
peek q = if q.tail == q.first then MessageType.none else (get_or q.messages q.first no_message).type

-- `message_queue_destroy`, up to the broadcasts that wake every waiting thread.
pub destroy : MessageQueue → MessageQueue
destroy q = record q { closing = true }
