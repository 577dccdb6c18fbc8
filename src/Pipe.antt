-- ===== src/Pipe.antt =====
-- ipc/fifo.c: messages between the processes through a named pipe, each behind its length. The pipe of
-- the operating system is the list of the bytes that are written and not yet read: a write of at most
-- PIPE_BUF bytes is done whole or fails, and a read of an empty pipe waits.
pub mod Frames
pub mod Refine
use tp1_so_2c.Base.{
  ℕ, zero, suc, ◌+◌, ◌*◌, ◌/◌, ◌%◌, Bool, true, false, List, [], ◌∷◌, ◌++◌, ltb, min, length, take,
  drop, if◌then◌else◌,
}
use tp1_so_2c.Base.Int.{ℤ, pos, negsuc, ◌-ℤ◌}

-- `IPC_MAX_PACKET_LEN`
abbrev pub ipc_max_packet_len : ℕ
ipc_max_packet_len = 512

-- `sizeof(size_t)`
abbrev pub size_of_size : ℕ
size_of_size = 8

-- The bytes of a `size_t`, the least first.
unfoldable pub size_bytes : ℕ → ℕ → List ℕ
size_bytes zero n = []
size_bytes (suc k) n = (n % 256) ∷ size_bytes k (n / 256)

-- The `size_t` that some bytes make.
unfoldable pub size_of_bytes : List ℕ → ℕ
size_of_bytes [] = 0
size_of_bytes (b ∷ bs) = b + 256 * size_of_bytes bs

-- What `ipc_write` puts into `tempbuf`.
unfoldable pub packet : List ℕ → List ℕ
packet buff =
    let reallen = min (length buff) ipc_max_packet_len in
    size_bytes size_of_size reallen ++ take reallen buff

-- `ipc_write` on a pipe. `write_ok` is whether `write` succeeds; if not, its result is -1.
unfoldable pub ipc_write : Bool → List ℕ → List ℕ → List ℕ × ℤ
unfolding packet
ipc_write write_ok pipe buff =
    if write_ok
    then (pipe ++ packet buff, pos (length (packet buff)) -ℤ pos size_of_size)
    else (pipe, negsuc 0 -ℤ pos size_of_size)

-- What `ipc_read` does: it waits at an empty pipe, it touches memory outside of an array or reads a
-- length that is not all there, or it leaves a pipe and has read some bytes. The result of the call is
-- their number; what the rest of the buffer holds is not fixed by the source.
pub data ReadOutcome : Type 0 where
  waits : ReadOutcome
  fault : ReadOutcome
  returns : (pipe bytes : List ℕ) → ReadOutcome

-- The end of `ipc_read`, at a length and behind it.
unfoldable pub read_payload : ℕ → ℕ → List ℕ → ReadOutcome
read_payload len count pipe =
    if ltb ipc_max_packet_len count
    then fault
    else if ltb ipc_max_packet_len len
    then fault
    else returns (drop count pipe) (take len (take count pipe))

-- `ipc_read` into a buffer of `len` bytes.
unfoldable pub ipc_read : List ℕ → ℕ → ReadOutcome
unfolding read_payload
ipc_read [] len = waits
ipc_read (b ∷ bs) len =
    let pipe = b ∷ bs in
    if ltb (length pipe) size_of_size
    then fault
    else read_payload len (size_of_bytes (take size_of_size pipe)) (drop size_of_size pipe)

-- How communication/airline.c makes its own result from that of `ipc_write`, which is -1 at a failure.
unfoldable pub comm_result : ℤ → ℤ
comm_result (pos n) = pos 0
comm_result (negsuc n) = if ltb 0 n then pos 0 else negsuc 0
