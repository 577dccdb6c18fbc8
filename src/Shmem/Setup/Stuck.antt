-- ===== src/Shmem/Setup/Stuck.antt =====
-- ipc/shmem.c: a lock that its maker does not release.
use tp1_so_2c.Base.{
  ℕ, zero, suc, ◌<◌, ◌≡◌, refl, ap, ◌∙◌, Bool, true, false, List, [], ◌∷◌, ◌++◌, Option, none, some,
  arith, length, get_elem?, if◌then◌else◌,
}
use tp1_so_2c.Shmem.{init_queue}
use tp1_so_2c.Shmem.Setup.{
  blank, Host, Process, starting, waiting, inside, connected, removing, null, Calls, set_up_memory,
  after_failure, write_memory, unlink_lock, set_up, half_made, post_lock, System, Steps, done, more,
  all_starting, no_names,
}
use tp1_so_2c.Shmem.Setup.Held.{behind_it, holders, value_at, holders-middle, start-IsHeld}
use tp1_so_2c.Shmem.Setup.Known.{middle_bound, start-AllKnown}
use tp1_so_2c.Shmem.Setup.Others.{IsAway, AllAway, IsAbandoned}
use tp1_so_2c.Shmem.Setup.Failure.{WaitsAt, Step-IsAbandoned, Step-WaitsAt}

not_posted : (vs : List ℕ) (l : ℕ) → l < length vs → value_at l vs ≡ 0 → get_elem? vs l ≡ some 0
not_posted [] l h e = absurd (omega arith)
not_posted (x ∷ vs) zero h e = ap some e
not_posted (x ∷ vs) (suc l) h e = not_posted vs l (omega (arith, h)) e

-- Nobody is behind the lock.
all_away : (l : ℕ) (ps : List Process) → holders l ps ≡ 0 → AllAway l ps
all_away l [] e = tt
all_away l (starting owner ∷ ps) e = (tt, all_away l ps (omega (arith, e)))
all_away l (waiting owner k ∷ ps) e = (tt, all_away l ps (omega (arith, e)))
all_away l (inside owner inited k ∷ ps) e =
    (λ same. ground (arith, e, same), all_away l ps (omega (arith, e)))
all_away l (connected owner k m ∷ ps) e = (tt, all_away l ps (omega (arith, e)))
all_away l (removing ∷ ps) e = (tt, all_away l ps (omega (arith, e)))
all_away l (null ∷ ps) e = (tt, all_away l ps (omega (arith, e)))

away_around :
    (l : ℕ) (before after : List Process) (p : Process)
    → AllAway l before
    → IsAway l p
    → AllAway l after
    → AllAway l (before ++ p ∷ after)
away_around l [] after p b x a = (x, a)
away_around l (q ∷ before) after p (y, b) x a = (y, away_around l before after p b x a)

-- What a process is that gets the null pointer, at once or when the name of the memory is removed.
abbrev pub HasFailed : Process → Type 0
HasFailed removing = Unit
HasFailed null = Unit
HasFailed _ = ⊥

HasFailed-IsAway : (l : ℕ) (p : Process) → HasFailed p → IsAway l p
HasFailed-IsAway l (starting owner) f = tt
HasFailed-IsAway l (waiting owner k) f = tt
HasFailed-IsAway l (inside owner inited k) f = absurd f
HasFailed-IsAway l (connected owner k m) f = tt
HasFailed-IsAway l removing f = tt
HasFailed-IsAway l null f = tt

waits_for_ever :
    {s t : System} (l i : ℕ) (owner : Bool)
    → Steps s t
    → IsAbandoned l s
    → WaitsAt s i owner l
    → WaitsAt t i owner l
waits_for_ever l i owner done a w = w
waits_for_ever l i owner (more x xs) a w =
    waits_for_ever l i owner xs (Step-IsAbandoned l x a) (Step-WaitsAt l i owner x a w)

-- A process that fails has left the locks alone.
failed-locks :
    (h h' : Host) (m : ℕ) (owner : Bool) (l : ℕ) (opens truncates maps has_sems : Bool)
    → h'.locks ≡ h.locks
    → let r : Host × Process =
        if opens
        then if truncates
          then if maps
            then if has_sems
              then (post_lock (write_memory h' m (set_up init_queue)) l, connected owner l m)
              else (unlink_lock owner (write_memory h' m half_made), after_failure owner)
            else (unlink_lock owner h', after_failure owner)
          else (unlink_lock owner h', after_failure owner)
        else (unlink_lock owner h, null) in
      HasFailed r.1 → r.0.locks ≡ h.locks
failed-locks h h' m true l false truncates maps has_sems e n = refl
failed-locks h h' m false l false truncates maps has_sems e n = refl
failed-locks h h' m true l true false maps has_sems e n = e
failed-locks h h' m false l true false maps has_sems e n = e
failed-locks h h' m true l true true false has_sems e n = e
failed-locks h h' m false l true true false has_sems e n = e
failed-locks h h' m true l true true true false e n = e
failed-locks h h' m false l true true true false e n = e
failed-locks h h' m owner l true true true true e n = absurd n

set_up_memory-failed :
    (name : Option ℕ) (h : Host) (owner : Bool) (l : ℕ) (calls : Calls)
    → let r = set_up_memory calls (record h { memory_name = name }) owner l in
      HasFailed r.1 → r.0.locks ≡ h.locks
unfolding set_up_memory
set_up_memory-failed none h owner l calls n =
    failed-locks (record h { memory_name = none })
      (record h { memory_name = some (length h.memories); memories = h.memories ++ blank ∷ [] })
      (length h.memories) owner l calls.opens calls.truncates calls.maps calls.has_sems refl n
set_up_memory-failed (some m) h owner l calls n =
    let h' : Host = record h { memory_name = some m } in
    failed-locks h' h' m owner l calls.opens calls.truncates calls.maps calls.has_sems refl n

-- When a process that has made the lock fails behind it, so that it gets the null pointer, every process that
-- then waits for the lock still waits for it in each later state (the calls of those that have found a lock
-- succeed behind it).
pub failed_set_up_lem :
    (owners : List Bool) (h : Host) (before after : List Process) (owner : Bool) (l : ℕ)
    (calls : Calls) (t : System) (i : ℕ) (waiter : Bool)
    → Steps
        (record { host = no_names; processes = all_starting owners })
        (record { host = h; processes = before ++ inside owner false l ∷ after })
    → HasFailed (set_up_memory calls h owner l).1
    → Steps
        (record {
          host = (set_up_memory calls h owner l).0;
          processes = before ++ (set_up_memory calls h owner l).1 ∷ after;
        })
        t
    → get_elem? (before ++ (set_up_memory calls h owner l).1 ∷ after) i ≡ some (waiting waiter l)
    → get_elem? t.processes i ≡ some (waiting waiter l)
failed_set_up_lem owners h before after owner l calls t i waiter r n r' w =
    let held = start-IsHeld owners _ r l in
    let here : behind_it l (inside owner false l) ≡ 1 = ground arith in
    let is = holders-middle l before after (inside owner false l) in
    let known =
      middle_bound (length h.locks) before after (inside owner false l)
        (start-AllKnown owners _ r) in
    waits_for_ever l i waiter r'
      (record {
        held =
            ap (λ vs. get_elem? vs l) (set_up_memory-failed h.memory_name h owner l calls n)
            ∙ not_posted h.locks l known (omega (arith, held, here, is));
        away =
            away_around l before after (set_up_memory calls h owner l).1
              (all_away l before (omega (arith, held, here, is)))
              (HasFailed-IsAway l (set_up_memory calls h owner l).1 n)
              (all_away l after (omega (arith, held, here, is)));
      })
      w
