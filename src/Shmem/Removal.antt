-- ===== src/Shmem/Removal.antt =====
-- ipc/shmem.c: how the processes give the queue up. Who owns it removes its semaphores and its names; the
-- memory stays for those who have it mapped.
pub mod Unguarded
use tp1_so_2c.Base.{ℕ, Bool, true, false, List, [], ◌∷◌, Option, none, some, length, if◌then◌else◌}
use tp1_so_2c.Shmem.{Queue, wait_to_read, wait_to_write, read_locked, write_locked}
use tp1_so_2c.Shmem.Setup.{Host}

-- The queue in memory, and whether the system still has its semaphores. If not, their values are 0 here.
pub record Shared : Type 0 where
  pub queue : Queue
  pub has_sems : Bool

abbrev pub without_sems : Queue → Queue
without_sems q = record q { read_wait = 0; write_sem = 0 }

-- `shm_unlink` and `sem_unlink`, by an owner.
abbrev pub unlink : Bool → Host → Host
unlink owner h = if owner then record h { lock_name = none; memory_name = none } else h

-- `ipc_destroy`. `none` is the null pointer.
unfoldable pub ipc_destroy : (owner : Bool) → Host → Option Shared → Host × Option Shared
ipc_destroy owner h none = (h, none)
ipc_destroy owner h (some s) =
    if owner
    then (unlink owner h, some (record { queue = without_sems s.queue; has_sems = false }))
    else (unlink owner h, some s)

-- `ipc_end`
unfoldable pub ipc_end : Host → Option Shared → Host × Option Shared
unfolding ipc_destroy
ipc_end = ipc_destroy true

-- `ipc_close`
unfoldable pub ipc_close : Host → Option Shared → Host × Option Shared
unfolding ipc_destroy
ipc_close = ipc_destroy false

-- What a process does with the queue, and what it gets.
pub data Access : Type 0 where
  read : (len : ℕ) → Access
  write : (buff : List ℕ) → Access

pub data Reply : Type 0 where
  got : (bytes : List ℕ) → Reply
  wrote : (len : ℕ) → Reply

-- What becomes of a call of `ipc_read` or `ipc_write`: it returns, it waits, or it goes outside of an array.
pub data Outcome : Type 0 where
  returns : Shared → Reply → Outcome
  waits faults : Outcome

-- The posts behind the lock, which do nothing if the semaphores are gone.
abbrev pub posted : Bool → Queue → Queue
posted has_sems q = if has_sems then q else without_sems q

abbrev pub answered : Bool → Option (Queue × Reply) → Outcome
answered has_sems none = faults
answered has_sems (some (q, r)) =
    returns (record { queue = posted has_sems q; has_sems = has_sems }) r

-- `ipc_sem_wait`, whose result the source does not look at: without the semaphore it is -1, and the process
-- goes on.
abbrev pub wait_at : Bool → Queue → Option Queue → Option Queue
wait_at has_sems q waited = if has_sems then waited else some q

abbrev pub got_bytes : Queue × List ℕ → Queue × Reply
got_bytes r = (r.0, got r.1)

abbrev pub wrote_bytes : Queue × ℕ → Queue × Reply
wrote_bytes r = (r.0, wrote r.1)

-- `ipc_read` as a whole
unfoldable pub ipc_read : Shared → ℕ → Outcome
ipc_read s len = elim (wait_at s.has_sems s.queue (wait_to_read s.queue)) [
  | none ↦ waits
  | some q ↦
      answered s.has_sems (elim (read_locked q len) [ none ↦ none | some r ↦ some (got_bytes r) ])
]

-- `ipc_write` as a whole
unfoldable pub ipc_write : (max_packet : ℕ) → Shared → List ℕ → Outcome
ipc_write max_packet s buff = elim (wait_at s.has_sems s.queue (wait_to_write s.queue)) [
  | none ↦ waits
  | some q ↦
      answered s.has_sems
        (elim (write_locked max_packet q buff) [ none ↦ none | some r ↦ some (wrote_bytes r) ])
]

abbrev pub call : ℕ → Shared → Access → Outcome
call max_packet s (read len) = ipc_read s len
call max_packet s (write buff) = ipc_write max_packet s buff

-- What a list of calls comes to: all of them return, or one waits or goes outside of an array.
pub data Replies : Type 0 where
  all_return : List Reply → Replies
  one_waits one_faults : Replies

abbrev pub reply_first : Reply → Replies → Replies
reply_first r (all_return rs) = all_return (r ∷ rs)
reply_first r rs = rs

unfoldable pub calls : ℕ → Shared → List Access → Replies
calls max_packet s [] = all_return []
calls max_packet s (a ∷ later) = elim (call max_packet s a) [
  | returns s' r ↦ reply_first r (calls max_packet s' later)
  | waits ↦ one_waits
  | faults ↦ one_faults
]
