-- ===== src/PosixQueue.antt =====
-- ipc/mqueue.c: messages between the processes through a message queue of the system. What `mq_send` and
-- `mq_receive` return is a parameter; how long they take is not modelled.
pub mod Failure
use tp1_so_2c.Base.{ℕ, Bool, true, false, List, [], ◌∷◌, ◌++◌, ltb, length, if◌then◌else◌}
use tp1_so_2c.Base.Int.{ℤ, pos, negsuc}

-- `struct ipc_t`: whether `wrt_mutex` is held, and the messages in the queue that it names.
pub record Conn : Type 0 where
  pub locked : Bool
  pub queue : List (List ℕ)

-- `ipc_write` returns a number, or waits for the mutex.
pub data Write : Type 0 where
  returns : ℤ → Write
  waits : Write

-- `ipc_write`. `sent` is whether `mq_send` succeeds.
unfoldable pub ipc_write : (sent : Bool) → Conn → List ℕ → Conn × Write
ipc_write sent c buff =
    if c.locked
    then (c, waits)
    else if sent
    then (record { locked = false; queue = c.queue ++ buff ∷ [] }, returns (pos (length buff)))
    else (record c { locked = true }, returns (negsuc 0))

-- `ipc_read`: it returns with some bytes, or with -1, waits at an empty queue, or writes past the buffer of
-- the caller, since it offers `mq_receive` at least the size of a `msg_t`.
pub data Read : Type 0 where
  gives : List ℕ → Read
  fails : Read
  sleeps : Read
  past_buffer : Read

abbrev receive : ℕ → List (List ℕ) → List (List ℕ) × Read
receive len [] = ([], sleeps)
receive len (m ∷ ms) = if ltb len (length m) then (ms, past_buffer) else (ms, gives m)

-- `ipc_read` into a buffer of `len` bytes. `received` is whether `mq_receive` succeeds.
unfoldable pub ipc_read : (received : Bool) → Conn → ℕ → Conn × Read
ipc_read received c len =
    if received
    then (record c { queue = (receive len c.queue).0 }, (receive len c.queue).1)
    else (c, fails)
