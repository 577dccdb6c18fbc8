-- ===== src/Pipe/Refine.antt =====
-- ipc/fifo.c: runs of `ipc_write` and `ipc_read`, and a queue of messages.
use tp1_so_2c.Base.{
  ℕ, ◌+◌, ◌≤◌, ◌≡◌, refl, ap, ap₂, sym, ◌∙◌, Bool, true, false, List, [], ◌∷◌, ◌++◌, arith, length,
  length-append, length-take, take,
}
use mathlib.Core.List.{append-nil}
use tp1_so_2c.Base.Int.{ℤ, pos, negsuc, ◌-ℤ◌}
use tp1_so_2c.Pipe.{
  size_bytes, ipc_max_packet_len, size_of_size, packet, ipc_write, ReadOutcome, waits, returns,
  fault, ipc_read, comm_result,
}
use tp1_so_2c.Pipe.Frames.{
  frame, frames, AllFit, frames-append, cut, packet-frame, length-size_bytes, read_frame,
}

-- What processes do with a pipe: they write, which may fail, or they read into a buffer.
pub data Call : Type 0 where
  write : (write_ok : Bool) → List ℕ → Call
  read : (len : ℕ) → Call

abbrev pipe_after_read : List ℕ → ReadOutcome → List ℕ
pipe_after_read old (returns pipe bytes) = pipe
pipe_after_read old _ = old

-- The replies as the callers see them: the result of a write, or the bytes of a read.
pub data Seen : Type 0 where
  result : ℤ → Seen
  bytes : List ℕ → Seen
  waiting : Seen
  crash : Seen

abbrev seen : ReadOutcome → Seen
seen waits = waiting
seen fault = crash
seen (returns pipe bs) = bytes bs

unfoldable pub run : List ℕ → List Call → List Seen
run pipe [] = []
run pipe (write ok buff ∷ cs) = let r = ipc_write ok pipe buff in result r.1 ∷ run r.0 cs
run pipe (read len ∷ cs) = let r = ipc_read pipe len in seen r ∷ run (pipe_after_read pipe r) cs

-- What the pipe promises: messages of at most 512 bytes, first in, first out; a read gives as much of
-- the first message as the buffer takes and drops the rest of it.
unfoldable pub spec_run : List (List ℕ) → List Call → List Seen
spec_run ms [] = []
spec_run ms (write true buff ∷ cs) =
    result (pos (length (cut buff))) ∷ spec_run (ms ++ cut buff ∷ []) cs
spec_run ms (write false buff ∷ cs) = result (negsuc 8) ∷ spec_run ms cs
spec_run [] (read len ∷ cs) = waiting ∷ spec_run [] cs
spec_run (m ∷ ms) (read len ∷ cs) = bytes (take len m) ∷ spec_run ms cs

-- No buffer is longer than a packet.
abbrev pub BuffersFit : List Call → Type 0
BuffersFit [] = Unit
BuffersFit (write ok buff ∷ cs) = BuffersFit cs
BuffersFit (read len ∷ cs) = (len ≤ ipc_max_packet_len) × BuffersFit cs

AllFit-add : (ms : List (List ℕ)) (buff : List ℕ) → AllFit ms → AllFit (ms ++ cut buff ∷ [])
AllFit-add [] buff f = (omega (arith, length-take ipc_max_packet_len buff), tt)
AllFit-add (m ∷ ms) buff f = (f.0, AllFit-add ms buff f.1)

-- What a write that succeeds leaves in the pipe, and its result.
written :
    (ms : List (List ℕ)) (buff : List ℕ) → frames ms ++ packet buff ≡ frames (ms ++ cut buff ∷ [])
written ms buff =
    ap (λ l. frames ms ++ l) (packet-frame buff ∙ sym (append-nil (frame (cut buff))))
    ∙ sym (frames-append ms (cut buff ∷ []))

less_header : (n : ℕ) → pos (8 + n) -ℤ pos 8 ≡ pos n
unfolding ◌-ℤ◌
less_header n = ground arith

write_result :
    (buff : List ℕ) → pos (length (packet buff)) -ℤ pos size_of_size ≡ pos (length (cut buff))
write_result buff =
    ap (λ (l : List ℕ). pos (length l) -ℤ pos size_of_size) (packet-frame buff)
    ∙ ap (λ n. pos n -ℤ pos size_of_size)
        (length-append (size_bytes size_of_size (length (cut buff))) (cut buff)
          ∙ ap (λ n. n + length (cut buff)) (length-size_bytes 8 (length (cut buff))))
    ∙ less_header (length (cut buff))

write_done :
    (ms : List (List ℕ)) (buff : List ℕ)
    → ipc_write true (frames ms) buff ≡ (frames (ms ++ cut buff ∷ []), pos (length (cut buff)))
unfolding ipc_write
write_done ms buff = ap₂ (λ p (n : ℤ). (p, n)) (written ms buff) (write_result buff)

write_failed : (pipe buff : List ℕ) → ipc_write false pipe buff ≡ (pipe, negsuc 8)
unfolding ipc_write ◌-ℤ◌
write_failed pipe buff = refl

read_empty : (len : ℕ) → ipc_read [] len ≡ waits
unfolding ipc_read
read_empty len = refl

-- On a pipe that holds messages of at most 512 bytes, and with buffers of at most 512 bytes, any
-- writes and reads give the replies of a queue of messages that are cut to 512 bytes, in which each
-- read takes a message out and gets as much of it as its buffer takes. A write that fails leaves the
-- queue as it is, and its result is -9.
pub pipe_refines :
    (ms : List (List ℕ)) (cs : List Call)
    → AllFit ms
    → BuffersFit cs
    → run (frames ms) cs ≡ spec_run ms cs
unfolding run spec_run
pipe_refines ms [] f b = refl
pipe_refines ms (write true buff ∷ cs) f b =
    ap (λ r. result r.1 ∷ run r.0 cs) (write_done ms buff)
    ∙ ap (λ l. result (pos (length (cut buff))) ∷ l)
        (pipe_refines (ms ++ cut buff ∷ []) cs (AllFit-add ms buff f) b)
pipe_refines ms (write false buff ∷ cs) f b =
    ap (λ r. result r.1 ∷ run r.0 cs) (write_failed (frames ms) buff)
    ∙ ap (λ l. result (negsuc 8) ∷ l) (pipe_refines ms cs f b)
pipe_refines [] (read len ∷ cs) f b =
    ap (λ r. seen r ∷ run (pipe_after_read [] r) cs) (read_empty len)
    ∙ ap (λ l. waiting ∷ l) (pipe_refines [] cs f b.1)
pipe_refines (m ∷ ms) (read len ∷ cs) f b =
    ap (λ r. seen r ∷ run (pipe_after_read (frames (m ∷ ms)) r) cs)
      (read_frame m (frames ms) len f.0 b.0)
    ∙ ap (λ l. bytes (take len m) ∷ l) (pipe_refines ms cs f.1 b.1)

-- `comm_airline_ready` and `comm_airline_status` tell their caller that all is well also when the
-- message could not be written to the pipe.
comm_result_lem :
    (write_ok : Bool) (ms : List (List ℕ)) (buff : List ℕ)
    → comm_result (ipc_write write_ok (frames ms) buff).1 ≡ pos 0
unfolding comm_result
comm_result_lem true ms buff = ap (λ r. comm_result r.1) (write_done ms buff)
comm_result_lem false ms buff = ap (λ r. comm_result r.1) (write_failed (frames ms) buff)
