-- ===== src/Tests/Keys.antt =====
-- Semaphores are made, used and removed with utils/sem.c, and its theorems at them.
use tp1_so_2c.Base.{ℕ, ◌+◌, ◌≡◌, refl, true, none, some, List, [], ◌∷◌}
use tp1_so_2c.Sem.{Semaphores, first_key, ipc_sem_create, value_of}
use tp1_so_2c.Sem.Values.{Call, create, wait, post, destroy, run, waited, posted, run_counts}
use tp1_so_2c.Sem.Fresh.{IsCreated, ipc_sem_create-IsCreated}

-- The first key is taken by another program.
abbrev busy : Semaphores
busy = record { key = first_key; sets = (322420958, 0) ∷ [] }

ipc_sem_create-IsCreated_example : IsCreated true true 1 busy (ipc_sem_create true true 1 busy)
ipc_sem_create-IsCreated_example = ipc_sem_create-IsCreated true true 1 busy

-- Two waits on the semaphore of the value 1, the second of which sleeps through two signals, a new semaphore,
-- a post, and the new one removed.
abbrev uses : List Call
uses =
    wait 0 5
    ∷ wait 2 5
    ∷ create true true 3
    ∷ post 5
    ∷ wait 1 5
    ∷ destroy none
    ∷ destroy (some first_key)
    ∷ []

abbrev one : Semaphores
one = record { key = first_key; sets = (5, 1) ∷ [] }

run_counts_example :
    (w : ℕ) × (value_of 5 (run 32767 uses one).sets ≡ some w)
    × (w + waited 32767 5 uses one ≡ 1 + posted 32767 5 uses one)
run_counts_example =
    run_counts 32767 5 1 uses one refl (tt, (tt, (tt, (tt, (tt, (tt, (refl, tt)))))))
