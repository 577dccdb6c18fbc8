-- ===== src/Tests/Connections.antt =====
-- Calls of the connection of ipc/mqueue.c, and its theorem at them.
use tp1_so_2c.Base.{◌≡◌, refl, true, false, List, [], ◌∷◌}
use tp1_so_2c.Base.Int.{negsuc}
use tp1_so_2c.PosixQueue.{Conn, returns, ipc_write}
use tp1_so_2c.PosixQueue.Failure.{Call, write, read, run, WritesWait, failed_write_lem}

-- The mutex is free and the queue holds a message.
abbrev conn : Conn
conn = record { locked = false; queue = (7 ∷ []) ∷ [] }

abbrev later : List Call
later = write true (1 ∷ []) ∷ read true 512 ∷ write true (2 ∷ []) ∷ []

failed_write_lem_example :
    ((ipc_write false conn (4 ∷ [])).1 ≡ returns (negsuc 0))
    × WritesWait later (run (ipc_write false conn (4 ∷ [])).0 later)
failed_write_lem_example = failed_write_lem conn (4 ∷ []) later refl
