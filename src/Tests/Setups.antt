-- ===== src/Tests/Setups.antt =====
-- Two processes in ipc_create of ipc/shmem.c, and the theorems at them.
use tp1_so_2c.Base.{◌≡◌, ◌≤◌, refl, Bool, true, false, List, [], ◌∷◌, none, some, get_elem?}
use tp1_so_2c.Shmem.{init_queue}
use tp1_so_2c.Shmem.Setup.{
  set_up, Host, starting, waiting, inside, connected, null, open_lock, wait_lock, post_lock, Calls,
  set_up_memory, attach_memory, System, Steps, done, more, opening, entering, setting_up, attaching,
  all_starting, no_names, all_succeed,
}
use tp1_so_2c.Shmem.Setup.Guard.{insiders, AllServed}
use tp1_so_2c.Shmem.Setup.Once.{all_connected_served}
use tp1_so_2c.Shmem.Setup.Stuck.{failed_set_up_lem}

-- The listener, and a process that connects to it before it has come to listen.
abbrev owners : List Bool
owners = true ∷ false ∷ []

abbrev begin : System
begin = record { host = no_names; processes = all_starting owners }

-- The second has made the lock, for which the first waits.
abbrev locked : Host
locked = record { lock_name = some 0; memory_name = none; locks = 0 ∷ []; memories = [] }

abbrev both_open : System
both_open = record { host = locked; processes = waiting true 0 ∷ inside false false 0 ∷ [] }

open_both : Steps begin both_open
unfolding open_lock
open_both =
    more (opening {h = no_names} (starting true ∷ []) [] false true)
      (more (opening {h = locked} [] (inside false false 0 ∷ []) true true) done)

-- Both are connected.
abbrev ready : Host
ready = record {
  lock_name = some 0;
  memory_name = some 0;
  locks = 1 ∷ [];
  memories = set_up init_queue ∷ [];
}

abbrev both_connected : System
both_connected = record { host = ready; processes = connected true 0 0 ∷ connected false 0 0 ∷ [] }

all_connected_served_example :
    (insiders both_connected.processes ≤ 1)
    × AllServed (some 0) ready.memories both_connected.processes
unfolding open_lock set_up_memory attach_memory post_lock wait_lock
all_connected_served_example =
    all_connected_served owners both_connected
      (more (opening {h = no_names} (starting true ∷ []) [] false true) (
        more (opening {h = locked} [] (inside false false 0 ∷ []) true true) (
          more (setting_up {h = locked} (waiting true 0 ∷ []) [] false 0 all_succeed) (
            more
              (entering {h = ready} [] (connected false 0 0 ∷ []) true 0 (inside true true 0) refl)
              (more
                (attaching {h = record ready { locks = 0 ∷ [] }} [] (connected false 0 0 ∷ []) true
                  0)
                done)))))
      (tt, (tt, ((λ e. cc), (tt, (tt, tt)))))

-- The second can not map the memory.
abbrev no_map : Calls
no_map = record all_succeed { maps = false }

abbrev given_up : System
given_up = record {
  host = (set_up_memory no_map locked false 0).0;
  processes = waiting true 0 ∷ null ∷ [];
}

failed_set_up_lem_example : get_elem? given_up.processes 0 ≡ some (waiting true 0)
unfolding set_up_memory
failed_set_up_lem_example =
    failed_set_up_lem owners locked (waiting true 0 ∷ []) [] false 0 no_map given_up 0 true
      open_both tt done refl
