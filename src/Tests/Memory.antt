-- ===== src/Tests/Memory.antt =====
-- Runs of the queue of ipc/shmem.c, and its theorems at them.
use tp1_so_2c.Base.{ℕ, ◌≡◌, refl, List, [], ◌∷◌, ◌++◌, some, arith, set}
use tp1_so_2c.Base.Int.{pos}
use tp1_so_2c.Shmem.{
  Queue, init_queue, wait_to_read, wait_to_write, find_slot, find_unused, write_locked, read_locked,
  shift,
}
use tp1_so_2c.Shmem.Slots.{init_queue-Holds}
use tp1_so_2c.Shmem.Setup.{Host}
use tp1_so_2c.Shmem.Removal.{Access, read, write}
use tp1_so_2c.Shmem.Order.{
  sys, Run, start, enter_read, enter_write, leave_read, leave_write, Carried, Run-Carried,
}

abbrev message : List ℕ
message = 7 ∷ 8 ∷ 9 ∷ []

-- A writer passes its semaphore, writes, and a reader passes its own and reads two bytes.
abbrev entered : Queue
entered = record init_queue { write_sem = 15 }

abbrev held : Queue
held = record entered {
  index = set init_queue.index 0 (pos 0);
  slots = set init_queue.slots 0 (record { len = 3; content = message });
  read_wait = 1;
}

abbrev awaited : Queue
awaited = record held { read_wait = 0 }

abbrev left : Queue
left = record awaited {
  index = shift held.index;
  slots = set held.slots 0 (record { len = 0; content = message });
  write_sem = 16;
}

enters : wait_to_write init_queue ≡ some entered
unfolding wait_to_write init_queue
enters = refl

writes : write_locked 8 entered message ≡ some (held, 3)
unfolding write_locked init_queue find_slot find_unused
writes = refl

awaits : wait_to_read held ≡ some awaited
unfolding wait_to_read
awaits = refl

reads : read_locked awaited 2 ≡ some (left, 7 ∷ 8 ∷ [])
unfolding read_locked init_queue
reads = refl

one_message :
    Run 8 (sys init_queue 0 0) ([] ++ message ∷ []) ([] ++ (2, 7 ∷ 8 ∷ []) ∷ []) (sys left 0 0)
one_message =
    leave_read 2
      (enter_read
        (leave_write message (enter_write start enters) (omega arith) (omega arith) writes) awaits)
      reads

Run-Carried_example : Carried [] ([] ++ message ∷ []) ([] ++ (2, 7 ∷ 8 ∷ []) ∷ []) (sys left 0 0)
Run-Carried_example =
    Run-Carried 8 (sys init_queue 0 0) (sys left 0 0) [] ([] ++ message ∷ [])
      ([] ++ (2, 7 ∷ 8 ∷ []) ∷ []) init_queue-Holds one_message

-- The queue is ended. A process writes a message and reads it, and reads once more.
abbrev named : Host
named = record { lock_name = some 0; memory_name = some 0; locks = 1 ∷ []; memories = [] }

abbrev accesses : List Access
accesses = write message ∷ read 2 ∷ read 2 ∷ []
