-- ===== src/Shmem/Setup.antt =====
-- ipc/shmem.c: how the processes find the memory that they share, and which of them sets it up. A named
-- semaphore is the lock: who makes it sets the memory up and releases it then, the others wait for it.
-- A process that has a name open keeps what it stood for when the name is removed.
pub mod Guard
pub mod Held
pub mod Turns
pub mod Once
pub mod Known
pub mod Others
pub mod Failure
pub mod Stuck
use tp1_so_2c.Base.{
  ℕ, suc, ◌+◌, ◌≡◌, Bool, true, false, List, [], ◌∷◌, ◌++◌, Option, none, some, length, get_elem?,
  set, if◌then◌else◌,
}
use tp1_so_2c.Shmem.{Queue, init_queue}

-- The memory under a name: new, with all but its semaphores, or ready for use.
pub data Memory : Type 0 where
  blank half_made : Memory
  set_up : Queue → Memory

-- What the system has under the two names of a queue, the values of all the locks that were made, and
-- all the pieces of memory.
pub record Host : Type 0 where
  pub lock_name : Option ℕ
  pub memory_name : Option ℕ
  pub locks : List ℕ
  pub memories : List Memory

-- Where a process is in `ipc_create`: before it, at the wait for the lock, behind it (and whether it has
-- found the lock made), or returned with a connection or with the null pointer. An owner that fails may have
-- removed the name of the lock, and have still to remove that of the memory.
pub data Process : Type 0 where
  starting : (owner : Bool) → Process
  waiting : (owner : Bool) → (lock : ℕ) → Process
  inside : (owner inited : Bool) → (lock : ℕ) → Process
  connected : (owner : Bool) → (lock memory : ℕ) → Process
  removing null : Process

-- `sem_open`, first with O_EXCL. `opens` is whether the second one succeeds.
unfoldable pub open_lock : (opens : Bool) → Host → Bool → Host × Process
open_lock opens h owner = elim h.lock_name [
  | none ↦ (
    record h { lock_name = some (length h.locks); locks = h.locks ++ 0 ∷ [] },
    inside owner false (length h.locks),
  )
  | some l ↦ (h, if opens then waiting owner l else null)
]

-- `sem_wait`. `none`: the process waits.
unfoldable pub wait_lock : Host → Bool → ℕ → Option (Host × Process)
wait_lock h owner l = elim (get_elem? h.locks l) [
  | some (suc v) ↦ some (record h { locks = set h.locks l v }, inside owner true l)
  | _ ↦ none
]

-- `sem_post`
unfoldable pub post_lock : Host → ℕ → Host
post_lock h l = elim (get_elem? h.locks l) [
  | some v ↦ record h { locks = set h.locks l (suc v) }
  | none ↦ h
]

-- Which of the calls behind the lock succeed: `shm_open`, `ftruncate`, `mmap`, and both `ipc_sem_create`.
pub record Calls : Type 0 where
  pub opens : Bool
  pub truncates : Bool
  pub maps : Bool
  pub has_sems : Bool

-- `shm_open`, which makes the memory if there is none of its name.
abbrev pub open_memory : Host → Host × ℕ
open_memory h = elim h.memory_name [
  | none ↦ (
    record h { memory_name = some (length h.memories); memories = h.memories ++ blank ∷ [] },
    length h.memories,
  )
  | some m ↦ (h, m)
]

-- `sem_unlink`, by an owner.
abbrev pub unlink_lock : Bool → Host → Host
unlink_lock owner h = if owner then record h { lock_name = none } else h

abbrev pub write_memory : Host → ℕ → Memory → Host
write_memory h m content = record h { memories = set h.memories m content }

-- A process that fails with the memory open: an owner has the name of the memory still to remove.
abbrev pub after_failure : (owner : Bool) → Process
after_failure owner = if owner then removing else null

-- `shm_unlink`
abbrev pub unlink_memory : Host → Host
unlink_memory h = record h { memory_name = none }

-- `ipc_create` behind the lock, of the process that has made it.
unfoldable pub set_up_memory : Calls → Host → Bool → ℕ → Host × Process
set_up_memory calls h owner l =
    let (h', m) = open_memory h in
    if calls.opens
    then if calls.truncates
      then if calls.maps
        then if calls.has_sems
          then (post_lock (write_memory h' m (set_up init_queue)) l, connected owner l m)
          else (unlink_lock owner (write_memory h' m half_made), after_failure owner)
        else (unlink_lock owner h', after_failure owner)
      else (unlink_lock owner h', after_failure owner)
    else (unlink_lock owner h, null)

-- The same of a process that has found it made.
unfoldable pub attach_memory : Calls → Host → Bool → ℕ → Host × Process
attach_memory calls h owner l =
    let (h', m) = open_memory h in
    if calls.opens
    then if calls.maps
      then (post_lock h' l, connected owner l m)
      else (unlink_lock owner h', after_failure owner)
    else (unlink_lock owner h, null)

pub record System : Type 0 where
  pub host : Host
  pub processes : List Process

abbrev pub all_succeed : Calls
all_succeed = record { opens = true; truncates = true; maps = true; has_sems = true }

-- The processes in `ipc_create`, in any order. The calls of the process that makes the lock may fail;
-- those of the others succeed.
pub data Step : System → System → Type 0 where
  opening :
      {h : Host} (before after : List Process) (owner opens : Bool)
      → Step
          (record { host = h; processes = before ++ starting owner ∷ after })
          (record {
            host = (open_lock opens h owner).0;
            processes = before ++ (open_lock opens h owner).1 ∷ after;
          })
  entering :
      {h h' : Host} (before after : List Process) (owner : Bool) (l : ℕ) (p : Process)
      → wait_lock h owner l ≡ some (h', p)
      → Step
          (record { host = h; processes = before ++ waiting owner l ∷ after })
          (record { host = h'; processes = before ++ p ∷ after })
  setting_up :
      {h : Host} (before after : List Process) (owner : Bool) (l : ℕ) (calls : Calls)
      → Step
          (record { host = h; processes = before ++ inside owner false l ∷ after })
          (record {
            host = (set_up_memory calls h owner l).0;
            processes = before ++ (set_up_memory calls h owner l).1 ∷ after;
          })
  attaching :
      {h : Host} (before after : List Process) (owner : Bool) (l : ℕ)
      → Step
          (record { host = h; processes = before ++ inside owner true l ∷ after })
          (record {
            host = (attach_memory all_succeed h owner l).0;
            processes = before ++ (attach_memory all_succeed h owner l).1 ∷ after;
          })
  unlinking :
      {h : Host} (before after : List Process)
      → Step
          (record { host = h; processes = before ++ removing ∷ after })
          (record { host = unlink_memory h; processes = before ++ null ∷ after })

pub data Steps : System → System → Type 0 where
  done : {s : System} → Steps s s
  more : {s t u : System} → Step s t → Steps t u → Steps s u

-- No name is there yet.
abbrev pub no_names : Host
no_names = record { lock_name = none; memory_name = none; locks = []; memories = [] }

abbrev pub all_starting : List Bool → List Process
all_starting [] = []
all_starting (owner ∷ owners) = starting owner ∷ all_starting owners
