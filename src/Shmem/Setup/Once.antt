-- ===== src/Shmem/Setup/Once.antt =====
-- ipc/shmem.c: however many processes open a queue, all of them get one that is set up.
use tp1_so_2c.Base.{
  ℕ, zero, suc, ◌≤◌, ◌≡◌, ◌≢◌, refl, ap, sym, ◌∙◌, subst, Bool, true, false, List, [], ◌∷◌, ◌++◌,
  Option, none, some, some_inj, arith, length, get_elem?, set,
}
use tp1_so_2c.Base.Places.{set-last, get_elem?-last}
use tp1_so_2c.Shmem.{Queue, init_queue}
use tp1_so_2c.Shmem.Setup.{
  Memory, blank, half_made, set_up, Host, Process, waiting, inside, null, wait_lock, post_lock,
  Calls, set_up_memory, attach_memory, unlink_lock, after_failure, removing, System, Step, opening,
  entering, setting_up, attaching, unlinking, Steps, done, more, all_starting, no_names,
  all_succeed,
}
use tp1_so_2c.Shmem.Setup.Guard.{
  insiders, AllServed, Guarded, parts_around, none_served, insiders-middle,
}
use tp1_so_2c.Shmem.Setup.Turns.{
  around, open_lock-Guarded, entered-Guarded, alone_inside, failed-Guarded, joined-Guarded,
  lock_exists,
}

get_last :
    (memories : List Memory) (m m' : Memory)
    → get_elem? (set (memories ++ m ∷ []) (length memories) m') (length memories) ≡ some m'
get_last memories m m' =
    ap (λ ms. get_elem? ms (length memories)) (set-last memories m m') ∙ get_elem?-last memories m'

module _ (lock : Option ℕ) (locks : List ℕ) (memories : List Memory) (before after : List Process)
    (l : ℕ) where
  abbrev unmade : Host
  unmade = record { lock_name = lock; memory_name = none; locks = locks; memories = memories }

  unlinked-Guarded :
      (owner : Bool) (memories' : List Memory)
      → after_failure owner ≢ removing
      → Guarded (around unmade before after (inside owner false l))
      → Guarded (
          around
            (unlink_lock owner
              (record unmade { memory_name = some (length memories); memories = memories' }))
            before
            after
            (after_failure owner))
  unlinked-Guarded true memories' kept g = absurd (kept refl)
  unlinked-Guarded false memories' kept g =
      failed-Guarded unmade lock (some (length memories)) memories' before after false l g (
        lock_exists lock none (some (length memories)) _ 0
          (omega (arith, insiders-middle before after (inside false false l))) g.named)

  lock_unlinked-Guarded :
      (owner : Bool)
      → Guarded (around unmade before after (inside owner false l))
      → Guarded (around (unlink_lock owner unmade) before after null)
  lock_unlinked-Guarded true g =
      failed-Guarded unmade none none memories before after true l g (refl, refl)
  lock_unlinked-Guarded false g = failed-Guarded unmade lock none memories before after false l g (
      lock_exists lock none none _ 0
        (omega (arith, insiders-middle before after (inside false false l))) g.named)

  set_up-Guarded :
      (owner opens truncates maps has_sems : Bool)
      → Guarded (around unmade before after (inside owner false l))
      → let r =
          set_up_memory
            (record { opens = opens; truncates = truncates; maps = maps; has_sems = has_sems })
            unmade
            owner
            l in
        r.1 ≢ removing → Guarded (around r.0 before after r.1)
  unfolding set_up_memory post_lock
  set_up-Guarded owner false truncates maps has_sems g kept = lock_unlinked-Guarded owner g
  set_up-Guarded owner true false maps has_sems g kept =
      unlinked-Guarded owner (memories ++ blank ∷ []) kept g
  set_up-Guarded owner true true false has_sems g kept =
      unlinked-Guarded owner (memories ++ blank ∷ []) kept g
  set_up-Guarded owner true true true false g kept =
      unlinked-Guarded owner (set (memories ++ blank ∷ []) (length memories) half_made) kept g
  set_up-Guarded owner true true true true g kept =
      let memories' = set (memories ++ blank ∷ []) (length memories) (set_up init_queue) in
      let (no_before, no_after, none_left) = alone_inside unmade before after owner false l g in
      let (b, _, a) = parts_around none memories before after (inside owner false l) g.served in
      let h : Host = record unmade { memory_name = some (length memories); memories = memories' } in
      joined-Guarded h before after owner l (length memories) (get_elem? locks l) refl
        (no_before, no_after, none_left)
        (none_served (some (length memories)) memories memories' before no_before b)
        (refl, (init_queue, get_last memories blank (set_up init_queue)))
        (none_served (some (length memories)) memories memories' after no_after a)
        (lock_exists lock none (some (length memories)) _ 1
          (omega (arith, insiders-middle before after (inside owner false l))) g.named)

set_up_memory-Guarded :
    (lock name : Option ℕ) (locks : List ℕ) (memories : List Memory) (before after : List Process)
    (owner : Bool) (l : ℕ) (calls : Calls)
    → let h : Host = record {
      lock_name = lock;
      memory_name = name;
      locks = locks;
      memories = memories;
    } in
      let r = set_up_memory calls h owner l in
      Guarded (around h before after (inside owner false l))
      → r.1 ≢ removing
      → Guarded (around r.0 before after r.1)
set_up_memory-Guarded lock none locks memories before after owner l calls g kept =
    set_up-Guarded lock locks memories before after l owner calls.opens calls.truncates calls.maps
      calls.has_sems g kept
set_up_memory-Guarded lock (some m) locks memories before after owner l calls g kept =
    let (_, no_memory, _) =
      parts_around (some m) memories before after (inside owner false l) g.served in
    cc

attach_memory-Guarded :
    (lock name : Option ℕ) (locks : List ℕ) (memories : List Memory) (before after : List Process)
    (owner : Bool) (l : ℕ)
    → let h : Host = record {
      lock_name = lock;
      memory_name = name;
      locks = locks;
      memories = memories;
    } in
      let r = attach_memory all_succeed h owner l in
      Guarded (around h before after (inside owner true l)) → Guarded (around r.0 before after r.1)
unfolding attach_memory post_lock
attach_memory-Guarded lock none locks memories before after owner l g =
    let (_, (m, (e, _)), _) =
      parts_around none memories before after (inside owner true l) g.served in
    cc
attach_memory-Guarded lock (some m) locks memories before after owner l g =
    let (b, (k, (e, ready)), a) =
      parts_around (some m) memories before after (inside owner true l) g.served in
    let h : Host = record {
      lock_name = lock;
      memory_name = some m;
      locks = locks;
      memories = memories;
    } in
    joined-Guarded h before after owner l m (get_elem? locks l) refl
      (alone_inside h before after owner true l g) b
      (
        refl,
        subst (λ i. (q : Queue) × (get_elem? memories i ≡ some (set_up q))) (sym (some_inj e))
            ready,
      )
      a
      (lock_exists lock (some m) (some m) _ 1
        (omega (arith, insiders-middle before after (inside owner true l))) g.named)

entered_by :
    (h : Host) (before after : List Process) (owner : Bool) (l : ℕ) (o : Option ℕ)
    (r : Host × Process)
    → get_elem? h.locks l ≡ o
    → (elim o [
      | some (suc v) ↦ some (record h { locks = set h.locks l v }, inside owner true l)
      | _ ↦ none
    ])
      ≡ some r
    → Guarded (around h before after (waiting owner l))
    → Guarded (around r.0 before after r.1)
entered_by h before after owner l none r e went g = cc
entered_by h before after owner l (some zero) r e went g = cc
entered_by h before after owner l (some (suc v)) r e went g =
    subst (λ (r' : Host × Process). Guarded (around r'.0 before after r'.1)) (some_inj went)
      (entered-Guarded h before after owner l v e g)

-- The step is not the failure of an owner that has the memory open.
abbrev KeepsMemory : {s t : System} → Step s t → Type 0
KeepsMemory (opening before after owner opens) = Unit
KeepsMemory (entering before after owner l p e) = Unit
KeepsMemory (setting_up {h} before after owner l calls) =
    (set_up_memory calls h owner l).1 ≢ removing
KeepsMemory (attaching before after owner l) = Unit
KeepsMemory (unlinking before after) = Unit

-- No owner that has made the lock fails with the memory open.
abbrev pub AllKeepMemory : {s t : System} → Steps s t → Type 0
AllKeepMemory done = Unit
AllKeepMemory (more x xs) = KeepsMemory x × AllKeepMemory xs

pub Step-Guarded : {s t : System} (x : Step s t) → KeepsMemory x → Guarded s → Guarded t
unfolding wait_lock
Step-Guarded (opening {h} before after owner opens) kept g =
    open_lock-Guarded h.lock_name h.memory_name h.locks h.memories before after owner opens g
Step-Guarded (entering {h} {h'} before after owner l p e) kept g =
    entered_by h before after owner l (get_elem? h.locks l) (h', p) refl e g
Step-Guarded (setting_up {h} before after owner l calls) kept g =
    set_up_memory-Guarded h.lock_name h.memory_name h.locks h.memories before after owner l calls g
      kept
Step-Guarded (attaching {h} before after owner l) kept g =
    attach_memory-Guarded h.lock_name h.memory_name h.locks h.memories before after owner l g
Step-Guarded (unlinking {h} before after) kept g =
    let (_, none_removes, _) =
      parts_around h.memory_name h.memories before after removing g.served in
    absurd none_removes

pub run-Guarded : {s t : System} (xs : Steps s t) → AllKeepMemory xs → Guarded s → Guarded t
run-Guarded done kept g = g
run-Guarded (more x xs) kept g = run-Guarded xs kept.1 (Step-Guarded x kept.0 g)

pub starting_idle :
    (owners : List Bool)
    → (insiders (all_starting owners) ≡ 0) × AllServed none [] (all_starting owners)
starting_idle [] = (refl, tt)
starting_idle (owner ∷ owners) = let (e, s) = starting_idle owners in (omega (arith, e), (tt, s))

pub start-Guarded :
    (owners : List Bool) (s : System)
    (r : Steps (record { host = no_names; processes = all_starting owners }) s)
    → AllKeepMemory r
    → Guarded s
start-Guarded owners s r kept =
    let (e, served) = starting_idle owners in
    run-Guarded r kept (record {
      alone = omega (arith, e);
      named = (omega (arith, e), refl);
      served = served;
      posted = tt;
    })

-- Any number of processes that call `ipc_create` when no name of the queue is there, in any interleaving,
-- and whatever calls of the process fail that makes the lock, but that no owner fails with the memory open
-- (behind the lock, the calls of those that have found it succeed): at most one of them is behind the lock at a time; and all that get a connection
-- are connected to one memory, which is set up.
pub all_connected_served :
    (owners : List Bool) (s : System)
    (r : Steps (record { host = no_names; processes = all_starting owners }) s)
    → AllKeepMemory r
    → (insiders s.processes ≤ 1) × AllServed s.host.memory_name s.host.memories s.processes
all_connected_served owners s r kept =
    let g = start-Guarded owners s r kept in (omega (arith, g.alone), g.served)
