-- ===== src/Shmem.antt =====
-- ipc/shmem.c: a queue of messages in memory that processes share. `ipc_read` and `ipc_write` first
-- wait for a semaphore, and then work under the lock; each of the two parts is a function here, and
-- another process may come between them.
pub mod Slots
pub mod Transfer
pub mod Order
pub mod Setup
pub mod Removal
use tp1_so_2c.Base.{
  ℕ, zero, suc, ◌+◌, ◌-◌, Bool, true, false, List, [], ◌∷◌, ◌++◌, Option, none, some, ◌==◌, ltb,
  leb, min, length, take, replicate, get_elem?, set, if◌then◌else◌, ◌>>=◌,
}
use tp1_so_2c.Base.Int.{ℤ, pos, negsuc}

abbrev pub entries_per_queue : ℕ
entries_per_queue = 16

-- `struct Entry`. The content is what was last written to it.
pub record Entry : Type 0 where
  pub len : ℕ
  pub content : List ℕ

-- `struct Queue`, with the values of its semaphores.
pub record Queue : Type 0 where
  pub index : List ℤ
  pub read_wait : ℕ
  pub write_sem : ℕ
  pub slots : List Entry

-- The queue that `ipc_create` sets up.
unfoldable pub init_queue : Queue
init_queue = record {
  index = replicate entries_per_queue (negsuc 0);
  read_wait = 0;
  write_sem = entries_per_queue;
  slots = replicate entries_per_queue (record { len = 0; content = [] });
}

-- `ipc_sem_wait(queue->readWait)`. `none`: the process waits.
unfoldable pub wait_to_read : Queue → Option Queue
wait_to_read q = if q.read_wait == 0 then none else some (record q { read_wait = q.read_wait - 1 })

-- `ipc_sem_wait(queue->writeSem)`. `none`: the process waits.
unfoldable pub wait_to_write : Queue → Option Queue
wait_to_write q = if q.write_sem == 0 then none else some (record q { write_sem = q.write_sem - 1 })

-- The loop that looks for an empty slot, from the one with number `i` on.
unfoldable pub find_slot : List Entry → ℕ → ℕ
find_slot [] i = i
find_slot (e ∷ es) i = let rest = find_slot es (i + 1) in if e.len == 0 then i else rest

-- Whether a place of the index is -1.
abbrev pub is_unused : ℤ → Bool
is_unused (pos n) = false
is_unused (negsuc n) = n == 0

-- The loop that looks for an unused place of the index, from the one with number `i` on.
unfoldable pub find_unused : List ℤ → ℕ → ℕ
find_unused [] i = i
find_unused (x ∷ xs) i = let rest = find_unused xs (i + 1) in if is_unused x then i else rest

-- `ipc_write` from `sem_wait` on, with packets of at most `max_packet` bytes: the result is the length
-- that is written. `none`: it writes past the end of an array.
unfoldable pub write_locked : ℕ → Queue → List ℕ → Option (Queue × ℕ)
write_locked max_packet q buff =
    let slot = find_slot q.slots 0 in
    let i = find_unused q.index 0 in
    let len = min (length buff) max_packet in
    if ltb slot (length q.slots)
    then if ltb i (length q.index)
      then some (
        record q {
          index = set q.index i (pos slot);
          slots = set q.slots slot (record { len = len; content = take len buff });
          read_wait = q.read_wait + 1;
        },
        len,
      )
      else none
    else none

-- The loop that moves the index one place down.
unfoldable pub shift : List ℤ → List ℤ
shift [] = []
shift (x ∷ xs) = xs ++ negsuc 0 ∷ []

-- The slot that the first place of the index names.
abbrev pub first_slot : List ℤ → Option ℕ
first_slot (pos slot ∷ xs) = some slot
first_slot _ = none

-- `ipc_read` from `sem_wait` on, into a buffer of `len` bytes: the bytes that are read. `none`: it reads
-- outside of the slots.
unfoldable pub read_locked : Queue → ℕ → Option (Queue × List ℕ)
read_locked q len = do
  slot ← first_slot q.index
  entry ← get_elem? q.slots slot
  some (
    record q {
      index = shift q.index;
      slots = set q.slots slot (record entry { len = 0 });
      write_sem = q.write_sem + 1;
    },
    take (min len entry.len) entry.content,
  )
