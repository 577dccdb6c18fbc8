-- ===== src/Sem.antt =====
-- utils/sem.c: a semaphore of the system under a key that no other has.
pub mod Fresh
pub mod Balance
pub mod Values
use tp1_so_2c.Base.{
  ℕ, zero, suc, ◌+◌, Bool, true, false, Option, none, some, List, [], ◌∷◌, ◌==◌, ltb, length,
  if◌then◌else◌,
}
use tp1_so_2c.Base.Int.{ℤ, pos, negsuc}

-- The static `key` of the file, and the sets of semaphores in the system by their keys, with their values.
pub record Semaphores : Type 0 where
  pub key : ℕ
  pub sets : List (ℕ × ℕ)

-- The first value of `key`.
abbrev pub first_key : ℕ
first_key = 322420958

abbrev pub is_taken : ℕ → List (ℕ × ℕ) → Bool
is_taken k [] = false
is_taken k ((j, value) ∷ sets) = let rest = is_taken k sets in if k == j then true else rest

-- `semget` with IPC_CREAT and IPC_EXCL: a new set, EEXIST, or another error if the system has no room.
pub data Semget : Type 0 where
  created exists refused : Semget

abbrev pub semget : (room : Bool) → ℕ → List (ℕ × ℕ) → Semget
semget room k sets = if is_taken k sets then exists else if room then created else refused

-- How the loop over the keys ends, with the key it has tried last. `out_of_fuel` is no end of the source.
pub data Search : Type 0 where
  at_key : Semget → (key : ℕ) → Search
  out_of_fuel : Search

abbrev pub try_key : Semget → ℕ → Search → Search
try_key exists key next = next
try_key r key next = at_key r key

-- The loop over the keys, with fuel for the sets.
unfoldable pub find_key : ℕ → Bool → ℕ → List (ℕ × ℕ) → Search
find_key zero room key sets = out_of_fuel
find_key (suc fuel) room key sets =
    let next = find_key fuel room (key + 1) sets in try_key (semget room key sets) key next

-- The result of `ipc_sem_create`: the key of the new set, or -1.
pub data Created : Type 0 where
  made : (key : ℕ) → Created
  failed : Created
  no_end : Created

-- What follows the loop. If `semctl` fails to set the value, the set is removed again.
abbrev pub behind_search : Bool → ℕ → Semaphores → Search → Created × Semaphores
behind_search set_ok value s (at_key created k) =
    if set_ok
    then (made k, record { key = k + 1; sets = (k, value) ∷ s.sets })
    else (failed, record s { key = k + 1 })
behind_search set_ok value s (at_key r k) = (failed, record s { key = k + 1 })
behind_search set_ok value s out_of_fuel = (no_end, s)

-- `ipc_sem_create`
unfoldable pub ipc_sem_create : (room set_ok : Bool) → ℕ → Semaphores → Created × Semaphores
unfolding find_key
ipc_sem_create room set_ok value s =
    behind_search set_ok value s (find_key (suc (length s.sets)) room s.key s.sets)

-- The value of a set, which its key names here.
abbrev pub value_of : ℕ → List (ℕ × ℕ) → Option ℕ
value_of k [] = none
value_of k ((j, value) ∷ sets) = let rest = value_of k sets in if k == j then some value else rest

abbrev pub set_value : ℕ → ℕ → List (ℕ × ℕ) → List (ℕ × ℕ)
set_value k value [] = []
set_value k value ((j, old) ∷ sets) =
    let rest = set_value k value sets in if k == j then (j, value) ∷ rest else (j, old) ∷ rest

abbrev pub remove : ℕ → List (ℕ × ℕ) → List (ℕ × ℕ)
remove k [] = []
remove k ((j, value) ∷ sets) =
    let rest = remove k sets in if k == j then rest else (j, value) ∷ rest

-- What `semop` does: it changes a value and returns 0, it returns -1, with EINTR or another error, or it
-- sleeps.
pub data Semop : Type 0 where
  changed : (sets : List (ℕ × ℕ)) → Semop
  interrupted errs sleeps : Semop

-- `semop` with -1. `signal` is whether a signal comes if it sleeps.
unfoldable pub take_one : (signal : Bool) → ℕ → List (ℕ × ℕ) → Semop
take_one signal k sets = elim (value_of k sets) [
  | none ↦ errs
  | some zero ↦ if signal then interrupted else sleeps
  | some (suc value) ↦ changed (set_value k value sets)
]

-- The test of the loop over `semop`.
abbrev pub try_again : Semop → Semop → Semop
try_again interrupted next = next
try_again r next = r

-- `ipc_sem_wait`, when as many signals as given come while it sleeps.
unfoldable pub ipc_sem_wait : (signals : ℕ) → ℕ → List (ℕ × ℕ) → Semop
ipc_sem_wait zero k sets = take_one false k sets
ipc_sem_wait (suc signals) k sets =
    let next = ipc_sem_wait signals k sets in try_again (take_one true k sets) next

-- `ipc_sem_post`, on a system whose semaphores have at most the given value. `semop` with 1 does not sleep,
-- so no signal interrupts it.
unfoldable pub ipc_sem_post : (max_value : ℕ) → ℕ → List (ℕ × ℕ) → Semop
ipc_sem_post max_value k sets = elim (value_of k sets) [
  | none ↦ errs
  | some value ↦ if ltb value max_value then changed (set_value k (suc value) sets) else errs
]

-- `ipc_sem_value`
unfoldable pub ipc_sem_value : ℕ → List (ℕ × ℕ) → ℤ
ipc_sem_value k sets = elim (value_of k sets) [ none ↦ negsuc 0 | some value ↦ pos value ]

-- `ipc_sem_destroy`. `none` is the -1 of a semaphore that was not made.
unfoldable pub ipc_sem_destroy : Option ℕ → List (ℕ × ℕ) → ℤ × List (ℕ × ℕ)
ipc_sem_destroy none sets = (pos 0, sets)
ipc_sem_destroy (some k) sets = if is_taken k sets then (pos 0, remove k sets) else (negsuc 0, sets)
