-- ===== src/Airline/Ending.antt =====
-- app/airline.c and app/plane.c: the end of an airline. `run_airline` broadcasts the end message and
-- joins the threads of the planes.
use tp1_so_2c.Base.{ℕ, suc, ◌≡◌, false, List, [], ◌∷◌}
use tp1_so_2c.Comm.{MessageType, Message, signal}
use tp1_so_2c.Models
use tp1_so_2c.MessageQueue.Ring.{contents}
use tp1_so_2c.Plane.{PlaneThread, Peeks, read_all}
use tp1_so_2c.Airline.{Thread}
use tp1_so_2c.Airline.System.{Worker, System, is_reading}

abbrev pub end_message : Message
end_message = signal MessageType.end

-- The messages of a queue with what the thread sees behind each of them, from the `n`th read on.
abbrev pub seen : (ℕ → Peeks) → ℕ → List Message → List (Peeks × Message)
seen peeks n [] = []
seen peeks n (m ∷ ms) = (peeks n, m) ∷ seen peeks (suc n) ms

-- The thread has ended, and `pthread_join` returns.
abbrev pub HasEnded : PlaneThread → Type 0
HasEnded t = is_reading t.place ≡ false

-- Each thread has ended when it has read its queue.
abbrev pub AllEnd : (ℕ → Peeks) → List Worker → List Thread → Type 0
AllEnd peeks [] [] = Unit
AllEnd peeks (w ∷ ws) (t ∷ ts) =
    HasEnded (read_all w.thread (seen peeks 0 (contents t.queue))).0 × AllEnd peeks ws ts
AllEnd peeks _ _ = ⊥
