-- ===== src/Tests/Transports.antt =====
-- Calls of the pipe of ipc/fifo.c, and its theorems at them.
use tp1_so_2c.Base.{ℕ, ◌≡◌, true, false, List, [], ◌∷◌, arith}
use tp1_so_2c.Pipe.Frames.{frames}
use tp1_so_2c.Pipe.Refine.{Call, read, write, run, spec_run, pipe_refines}

abbrev sent : List (List ℕ)
sent = (7 ∷ 8 ∷ 9 ∷ []) ∷ []

-- A write, one that fails, and three reads, the last of which waits.
abbrev calls : List Call
calls = write true (1 ∷ 2 ∷ []) ∷ write false (3 ∷ []) ∷ read 2 ∷ read 512 ∷ read 1 ∷ []

pipe_refines_example : run (frames sent) calls ≡ spec_run sent calls
pipe_refines_example =
    pipe_refines sent calls (omega arith, tt) (omega arith, (omega arith, (omega arith, tt)))
