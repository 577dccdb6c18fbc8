-- ===== src/Socket.antt =====
-- ipc/socket.c: messages between the processes over datagram sockets. What `sendto` and `read` do, call
-- after call, is a parameter: a list of their results, of which some are to be tried again.
pub mod Refine
use tp1_so_2c.Base.{ℕ, List, [], ◌∷◌, ◌++◌, length, take}
use tp1_so_2c.Base.Int.{ℤ, pos, negsuc}

-- The result of a call of the system: it is done, it is to be tried again (ENOBUFS, EINTR), or it fails.
pub data Call : Type 0 where
  succeeds again breaks : Call

-- What `ipc_write` and `ipc_read` do: they return a number, or `ipc_read` waits at an empty queue, or they
-- are still in their loop when the list of results is at its end. The bytes are those that are read.
pub data Outcome : Type 0 where
  returns : ℤ → (bytes : List ℕ) → Outcome
  sleeps : Outcome
  tries : Outcome

-- The loop of `ipc_write` over `sendto`, at the messages that wait in the socket of the other side.
unfoldable pub ipc_write : List Call → List (List ℕ) → List ℕ → List (List ℕ) × Outcome
ipc_write [] queue buff = (queue, tries)
ipc_write (succeeds ∷ calls) queue buff = (queue ++ buff ∷ [], returns (pos (length buff)) [])
ipc_write (again ∷ calls) queue buff = ipc_write calls queue buff
ipc_write (breaks ∷ calls) queue buff = (queue, returns (negsuc 0) [])

-- A `read` of a datagram into a buffer of `len` bytes, which drops what the buffer has no room for.
abbrev pub receive : ℕ → List (List ℕ) → List (List ℕ) × Outcome
receive len [] = ([], sleeps)
receive len (m ∷ ms) = (ms, returns (pos (length (take len m))) (take len m))

-- The loop of `ipc_read` over `read`.
unfoldable pub ipc_read : List Call → List (List ℕ) → ℕ → List (List ℕ) × Outcome
ipc_read [] queue len = (queue, tries)
ipc_read (succeeds ∷ calls) queue len = receive len queue
ipc_read (again ∷ calls) queue len = ipc_read calls queue len
ipc_read (breaks ∷ calls) queue len = (queue, returns (negsuc 0) [])
