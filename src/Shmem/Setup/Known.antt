-- ===== src/Shmem/Setup/Known.antt =====
-- ipc/shmem.c: the lock that a process is behind is one that was made.
use tp1_so_2c.Base.{
  ℕ, zero, suc, ◌≤◌, ◌<◌, ◌≡◌, refl, subst, Bool, true, false, List, [], ◌∷◌, ◌++◌, Option, none,
  some, some_inj, arith, length, get_elem?, set, if◌then◌else◌, length-set, length-append,
}
use tp1_so_2c.Base.Places.{lt-length}
use tp1_so_2c.Shmem.{init_queue}
use tp1_so_2c.Shmem.Setup.{
  Memory, blank, half_made, set_up, Host, Process, starting, waiting, inside, connected, null,
  open_lock, wait_lock, post_lock, Calls, set_up_memory, attach_memory, after_failure, removing,
  unlinking, write_memory, unlink_lock, System, Step, opening, entering, setting_up, attaching,
  Steps, done, more, all_starting, no_names, all_succeed,
}

abbrev IsKnown : ℕ → Process → Type 0
IsKnown n (inside owner inited l) = l < n
IsKnown n _ = Unit

abbrev pub AllKnown : ℕ → List Process → Type 0
AllKnown n [] = Unit
AllKnown n (p ∷ ps) = IsKnown n p × AllKnown n ps

longer_bound : (n n' : ℕ) (p : Process) → n ≤ n' → IsKnown n p → IsKnown n' p
longer_bound n n' (inside owner inited l) h k = omega (arith, h, k)
longer_bound n n' (starting owner) h k = tt
longer_bound n n' (waiting owner l) h k = tt
longer_bound n n' (connected owner l m) h k = tt
longer_bound n n' removing h k = tt
longer_bound n n' null h k = tt

known_replaced :
    (n n' : ℕ) (before after : List Process) (p p' : Process)
    → n ≤ n'
    → AllKnown n (before ++ p ∷ after)
    → IsKnown n' p'
    → AllKnown n' (before ++ p' ∷ after)
known_replaced n n' [] after p p' h (_, ks) k = (k, all_longer after ks)
  where
    all_longer : (ps : List Process) → AllKnown n ps → AllKnown n' ps
    all_longer [] ks = tt
    all_longer (q ∷ ps) (k, ks) = (longer_bound n n' q h k, all_longer ps ks)
known_replaced n n' (q ∷ before) after p p' h (k', ks) k =
    (longer_bound n n' q h k', known_replaced n n' before after p p' h ks k)

pub middle_bound :
    (n : ℕ) (before after : List Process) (p : Process)
    → AllKnown n (before ++ p ∷ after)
    → IsKnown n p
middle_bound n [] after p (k, _) = k
middle_bound n (q ∷ before) after p (_, ks) = middle_bound n before after p ks

-- What a stretch of a process does: no lock goes, and the process is behind one that there is.
abbrev Grows : Host → Host × Process → Type 0
Grows h (h', p) = (length h.locks ≤ length h'.locks) × IsKnown (length h'.locks) p

open_lock-Grows :
    (lock : Option ℕ) (h : Host) (owner opens : Bool)
    → Grows h (open_lock opens (record h { lock_name = lock }) owner)
unfolding open_lock
open_lock-Grows none h owner opens =
    (omega (arith, length-append h.locks (0 ∷ [])), omega (arith, length-append h.locks (0 ∷ [])))
open_lock-Grows (some l) h owner true = (omega arith, tt)
open_lock-Grows (some l) h owner false = (omega arith, tt)

entered-Grows :
    (h : Host) (owner : Bool) (l : ℕ) (o : Option ℕ) (r : Host × Process)
    → get_elem? h.locks l ≡ o
    → (elim o [
      | some (suc v) ↦ some (record h { locks = set h.locks l v }, inside owner true l)
      | _ ↦ none
    ])
      ≡ some r
    → Grows h r
entered-Grows h owner l none r e went = cc
entered-Grows h owner l (some zero) r e went = cc
entered-Grows h owner l (some (suc v)) r e went = subst (Grows h) (some_inj went) (
  omega (arith, length-set h.locks l v),
  omega (arith, length-set h.locks l v, lt-length h.locks l e),
)

posted-length :
    (h : Host) (l : ℕ) (o : Option ℕ)
    → let h' : Host = elim o [ some n ↦ record h { locks = set h.locks l (suc n) } | none ↦ h ] in
      length h.locks ≤ length h'.locks
posted-length h l none = omega arith
posted-length h l (some n) = omega (arith, length-set h.locks l (suc n))

unlink_lock-length : (owner : Bool) (h : Host) → length h.locks ≤ length (unlink_lock owner h).locks
unlink_lock-length true h = omega arith
unlink_lock-length false h = omega arith

failed-Grows :
    (owner : Bool) (h h' : Host)
    → length h.locks ≤ length h'.locks
    → Grows h (unlink_lock owner h', after_failure owner)
failed-Grows true h h' e = (e, tt)
failed-Grows false h h' e = (e, tt)

set_up-Grows :
    (h : Host) (name : Option ℕ) (memories : List Memory) (m : ℕ) (owner : Bool) (l : ℕ)
    (opens truncates maps has_sems : Bool)
    → let h' : Host = record h { memory_name = name; memories = memories } in
      Grows h (
        if opens
        then if truncates
          then if maps
            then if has_sems
              then (post_lock (write_memory h' m (set_up init_queue)) l, connected owner l m)
              else (unlink_lock owner (write_memory h' m half_made), after_failure owner)
            else (unlink_lock owner h', after_failure owner)
          else (unlink_lock owner h', after_failure owner)
        else (unlink_lock owner h, null))
unfolding post_lock
set_up-Grows h name memories m owner l false truncates maps has_sems =
    (unlink_lock-length owner h, tt)
set_up-Grows h name memories m owner l true false maps has_sems =
    failed-Grows owner h _ (omega arith)
set_up-Grows h name memories m owner l true true false has_sems =
    failed-Grows owner h _ (omega arith)
set_up-Grows h name memories m owner l true true true false = failed-Grows owner h _ (omega arith)
set_up-Grows h name memories m owner l true true true true =
    (posted-length _ l (get_elem? h.locks l), tt)

set_up_memory-Grows :
    (name : Option ℕ) (h : Host) (owner : Bool) (l : ℕ) (calls : Calls)
    → Grows h (set_up_memory calls (record h { memory_name = name }) owner l)
unfolding set_up_memory
set_up_memory-Grows none h owner l calls =
    set_up-Grows (record h { memory_name = none }) (some (length h.memories))
      (h.memories ++ blank ∷ []) (length h.memories) owner l calls.opens calls.truncates calls.maps
      calls.has_sems
set_up_memory-Grows (some m) h owner l calls =
    set_up-Grows (record h { memory_name = some m }) (some m) h.memories m owner l calls.opens
      calls.truncates calls.maps calls.has_sems

attach_memory-Grows :
    (name : Option ℕ) (h : Host) (owner : Bool) (l : ℕ)
    → Grows h (attach_memory all_succeed (record h { memory_name = name }) owner l)
unfolding attach_memory post_lock
attach_memory-Grows none h owner l = (posted-length _ l (get_elem? h.locks l), tt)
attach_memory-Grows (some m) h owner l = (posted-length _ l (get_elem? h.locks l), tt)

pub Step-AllKnown :
    {s t : System}
    → Step s t
    → AllKnown (length s.host.locks) s.processes
    → AllKnown (length t.host.locks) t.processes
unfolding wait_lock
Step-AllKnown (opening {h} before after owner opens) ks =
    let (longer, k) = open_lock-Grows h.lock_name h owner opens in
    known_replaced _ _ before after (starting owner) _ longer ks k
Step-AllKnown (entering {h} {h'} before after owner l p e) ks =
    let (longer, k) = entered-Grows h owner l (get_elem? h.locks l) (h', p) refl e in
    known_replaced _ _ before after (waiting owner l) _ longer ks k
Step-AllKnown (setting_up {h} before after owner l calls) ks =
    let (longer, k) = set_up_memory-Grows h.memory_name h owner l calls in
    known_replaced _ _ before after (inside owner false l) _ longer ks k
Step-AllKnown (attaching {h} before after owner l) ks =
    let (longer, k) = attach_memory-Grows h.memory_name h owner l in
    known_replaced _ _ before after (inside owner true l) _ longer ks k
Step-AllKnown (unlinking {h} before after) ks =
    known_replaced _ _ before after removing _ (omega arith) ks tt

run-AllKnown :
    {s t : System}
    → Steps s t
    → AllKnown (length s.host.locks) s.processes
    → AllKnown (length t.host.locks) t.processes
run-AllKnown done ks = ks
run-AllKnown (more x xs) ks = run-AllKnown xs (Step-AllKnown x ks)

pub starting_known : (n : ℕ) (owners : List Bool) → AllKnown n (all_starting owners)
starting_known n [] = tt
starting_known n (owner ∷ owners) = (tt, starting_known n owners)

pub start-AllKnown :
    (owners : List Bool) (s : System)
    → Steps (record { host = no_names; processes = all_starting owners }) s
    → AllKnown (length s.host.locks) s.processes
start-AllKnown owners s r = run-AllKnown r (starting_known 0 owners)
