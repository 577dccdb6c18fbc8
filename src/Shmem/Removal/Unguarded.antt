-- ===== src/Shmem/Removal/Unguarded.antt =====
-- ipc/shmem.c: reads and writes of a queue whose owner has removed its semaphores.
use tp1_so_2c.Base.{ℕ, ◌-◌, ◌≤◌, ◌<◌, false, List, [], ◌∷◌, ◌++◌, ltb, length, take, if◌then◌else◌}
use tp1_so_2c.Shmem.{Queue, entries_per_queue}
use tp1_so_2c.Shmem.Slots.{Holds}
use tp1_so_2c.Shmem.Removal.{
  Shared, Access, read, write, got, wrote, Replies, all_return, one_faults, reply_first,
}

-- A first-in-first-out list of at most 16 messages, which faults where a queue would wait.
unfoldable pub unguarded : List Access → List (List ℕ) → Replies
unguarded [] ms = all_return []
unguarded (read len ∷ later) [] = one_faults
unguarded (read len ∷ later) (m ∷ ms) = reply_first (got (take len m)) (unguarded later ms)
unguarded (write buff ∷ later) ms =
    let rest = reply_first (wrote (length buff)) (unguarded later (ms ++ buff ∷ [])) in
    if ltb (length ms) entries_per_queue then rest else one_faults

-- Every message that is written has 1 to `max` bytes.
abbrev pub Fits : ℕ → Access → Type 0
Fits max (read len) = Unit
Fits max (write buff) = (0 < length buff) × (length buff ≤ max)

abbrev pub AllFit : ℕ → List Access → Type 0
AllFit max [] = Unit
AllFit max (a ∷ later) = Fits max a × AllFit max later

-- The queue holds the messages. Its semaphores have the value 0, as if every process were past them that
-- could be.
abbrev Keeps : Queue → List (List ℕ) → Type 0
Keeps q ms = Holds q ms (length ms) (entries_per_queue - length ms)

-- What the queue of an owner that has ended it is.
abbrev ended : Queue → Shared
ended q = record { queue = q; has_sems = false }
