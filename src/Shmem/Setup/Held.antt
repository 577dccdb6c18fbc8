-- ===== src/Shmem/Setup/Held.antt =====
-- ipc/shmem.c: one process at a time is behind a lock, whatever fails.
use tp1_so_2c.Base.{
  ℕ, zero, suc, ◌+◌, ◌≤◌, ◌≡◌, refl, subst, Bool, true, false, List, [], ◌∷◌, ◌++◌, Option, none,
  some, some_inj, arith, ◌==◌, length, get_elem?, get_or, set, if◌then◌else◌,
}
use tp1_so_2c.Shmem.{init_queue}
use tp1_so_2c.Shmem.Setup.{
  Memory, blank, half_made, set_up, Host, Process, starting, waiting, inside, connected, removing,
  null, open_lock, wait_lock, post_lock, Calls, set_up_memory, attach_memory, after_failure,
  unlink_lock, unlink_memory, write_memory, System, Step, opening, entering, setting_up, attaching,
  unlinking, Steps, done, more, all_starting, no_names, all_succeed,
}
use tp1_so_2c.Shmem.Setup.Known.{AllKnown, Step-AllKnown, starting_known}

-- Whether a process is behind lock `l`.
abbrev pub behind_it : ℕ → Process → ℕ
behind_it l (inside owner inited k) = if k == l then 1 else 0
behind_it l _ = 0

abbrev pub holders : ℕ → List Process → ℕ
holders l [] = 0
holders l (p ∷ ps) = behind_it l p + holders l ps

-- The value of lock `l`.
abbrev pub value_at : ℕ → List ℕ → ℕ
value_at l locks = get_or locks l 0

-- Of each lock, at most one process is behind it or can get there.
abbrev pub IsHeld : System → Type 0
IsHeld s = (l : ℕ) → holders l s.processes + value_at l s.host.locks ≤ 1

pub holders-middle :
    (l : ℕ) (before after : List Process) (p : Process)
    → holders l (before ++ p ∷ after) ≡ holders l before + behind_it l p + holders l after
holders-middle l [] after p = omega arith
holders-middle l (q ∷ before) after p = omega (arith, holders-middle l before after p)

-- A process steps to `p'` and leaves the locks `locks'`.
replaced-IsHeld :
    (h h' : Host) (before after : List Process) (p p' : Process)
    → ((l : ℕ) → behind_it l p' + value_at l h'.locks ≤ behind_it l p + value_at l h.locks)
    → IsHeld (record { host = h; processes = before ++ p ∷ after })
    → IsHeld (record { host = h'; processes = before ++ p' ∷ after })
replaced-IsHeld h h' before after p p' less held l =
    omega (arith, less l, held l, holders-middle l before after p, holders-middle l before after p')

value_at-append : (locks : List ℕ) (l : ℕ) → value_at l (locks ++ 0 ∷ []) ≡ value_at l locks
value_at-append [] zero = refl
value_at-append [] (suc l) = refl
value_at-append (v ∷ locks) zero = refl
value_at-append (v ∷ locks) (suc l) = value_at-append locks l

value_at-past : (locks : List ℕ) (l : ℕ) → length locks ≤ l → value_at l locks ≡ 0
value_at-past [] l h = refl
value_at-past (v ∷ locks) zero h = absurd (omega arith)
value_at-past (v ∷ locks) (suc l) h = value_at-past locks l (omega arith)

value_at-found : (locks : List ℕ) (l v : ℕ) → get_elem? locks l ≡ some v → value_at l locks ≡ v
value_at-found [] l v e = cc
value_at-found (w ∷ locks) zero v e = some_inj e
value_at-found (w ∷ locks) (suc l) v e = value_at-found locks l v e

-- Nobody is behind a lock that is not made.
holders_beyond : (n l : ℕ) (ps : List Process) → n ≤ l → AllKnown n ps → holders l ps ≡ 0
holders_beyond n l [] h ks = refl
holders_beyond n l (starting owner ∷ ps) h ks = omega (arith, holders_beyond n l ps h ks.1)
holders_beyond n l (waiting owner k ∷ ps) h ks = omega (arith, holders_beyond n l ps h ks.1)
holders_beyond n l (inside owner inited k ∷ ps) h ks =
    ground (arith, ks.0, holders_beyond n l ps h ks.1)
holders_beyond n l (connected owner k m ∷ ps) h ks = omega (arith, holders_beyond n l ps h ks.1)
holders_beyond n l (removing ∷ ps) h ks = omega (arith, holders_beyond n l ps h ks.1)
holders_beyond n l (null ∷ ps) h ks = omega (arith, holders_beyond n l ps h ks.1)

-- A new lock.
made-IsHeld :
    (h h' : Host) (before after : List Process) (owner : Bool)
    → h'.locks ≡ h.locks ++ 0 ∷ []
    → AllKnown (length h.locks) (before ++ starting owner ∷ after)
    → IsHeld (record { host = h; processes = before ++ starting owner ∷ after })
    → IsHeld
        (record { host = h'; processes = before ++ inside owner false (length h.locks) ∷ after })
made-IsHeld h h' before after owner e ks held l = rw e (
    ground (
      arith,
      held l,
      value_at-append h.locks l,
      value_at-past h.locks l,
      holders_beyond (length h.locks) l (before ++ starting owner ∷ after),
      ks,
      holders-middle l before after (starting owner),
      holders-middle l before after (inside owner false (length h.locks)),
    ))

-- The value of a lock that is written.
value_at-set :
    (locks : List ℕ) (k l v w : ℕ)
    → get_elem? locks k ≡ some v
    → value_at l (set locks k w) + (if k == l then v else 0)
      ≤ value_at l locks + (if k == l then w else 0)
value_at-set [] k l v w e = cc
value_at-set (x ∷ locks) zero zero v w e = omega (arith, some_inj e)
value_at-set (x ∷ locks) zero (suc l) v w e = ground arith
value_at-set (x ∷ locks) (suc k) zero v w e = ground arith
value_at-set (x ∷ locks) (suc k) (suc l) v w e = ground (arith, value_at-set locks k l v w e)

-- A process that passes the lock.
passed-IsHeld :
    (h : Host) (before after : List Process) (owner : Bool) (k : ℕ) (o : Option ℕ)
    (r : Host × Process)
    → get_elem? h.locks k ≡ o
    → (elim o [
      | some (suc v) ↦ some (record h { locks = set h.locks k v }, inside owner true k)
      | _ ↦ none
    ])
      ≡ some r
    → IsHeld (record { host = h; processes = before ++ waiting owner k ∷ after })
    → IsHeld (record { host = r.0; processes = before ++ r.1 ∷ after })
passed-IsHeld h before after owner k none r e went held = cc
passed-IsHeld h before after owner k (some zero) r e went held = cc
passed-IsHeld h before after owner k (some (suc v)) r e went held =
    subst
      (λ (r' : Host × Process). IsHeld (record { host = r'.0; processes = before ++ r'.1 ∷ after }))
      (some_inj went)
      (replaced-IsHeld h (record h { locks = set h.locks k v }) before after (waiting owner k)
        (inside owner true k) (λ l. ground (arith, value_at-set h.locks k l (suc v) v e)) held)

-- A process that posts the lock that it is behind, and one that does not.
posted_less :
    (h : Host) (k l : ℕ) (o : Option ℕ)
    → get_elem? h.locks k ≡ o
    → let h' : Host = elim o [ some v ↦ record h { locks = set h.locks k (suc v) } | none ↦ h ] in
      value_at l h'.locks ≤ (if k == l then 1 else 0) + value_at l h.locks
posted_less h k l none e = omega arith
posted_less h k l (some v) e = ground (arith, value_at-set h.locks k l v (suc v) e)

post_lock-less :
    (h : Host) (k l : ℕ)
    → value_at l (post_lock h k).locks ≤ (if k == l then 1 else 0) + value_at l h.locks
unfolding post_lock
post_lock-less h k l = posted_less h k l (get_elem? h.locks k) refl

-- What a process does behind lock `k`.
abbrev Lessens : ℕ → Host → Host × Process → Type 0
Lessens k h r =
    (l : ℕ)
    → behind_it l r.1 + value_at l r.0.locks ≤ (if k == l then 1 else 0) + value_at l h.locks

failed-Lessens :
    (k : ℕ) (owner : Bool) (h h' : Host)
    → h'.locks ≡ h.locks
    → Lessens k h (unlink_lock owner h', after_failure owner)
failed-Lessens k true h h' e l = rw e (omega arith)
failed-Lessens k false h h' e l = rw e (omega arith)

refused-Lessens :
    (k : ℕ) (owner : Bool) (h h' : Host)
    → h'.locks ≡ h.locks
    → Lessens k h (unlink_lock owner h', null)
refused-Lessens k true h h' e l = rw e (omega arith)
refused-Lessens k false h h' e l = rw e (omega arith)

joined-Lessens :
    (k m : ℕ) (owner : Bool) (h h' : Host)
    → h'.locks ≡ h.locks
    → Lessens k h (post_lock h' k, connected owner k m)
joined-Lessens k m owner h h' e l = rw (← e) (omega (arith, post_lock-less h' k l))

set_up-Lessens :
    (h : Host) (name : Option ℕ) (memories : List Memory) (m : ℕ) (owner : Bool) (k : ℕ)
    (opens truncates maps has_sems : Bool)
    → let h' : Host = record h { memory_name = name; memories = memories } in
      Lessens k h (
        if opens
        then if truncates
          then if maps
            then if has_sems
              then (post_lock (write_memory h' m (set_up init_queue)) k, connected owner k m)
              else (unlink_lock owner (write_memory h' m half_made), after_failure owner)
            else (unlink_lock owner h', after_failure owner)
          else (unlink_lock owner h', after_failure owner)
        else (unlink_lock owner h, null))
set_up-Lessens h name memories m owner k false truncates maps has_sems =
    refused-Lessens k owner h h refl
set_up-Lessens h name memories m owner k true false maps has_sems =
    failed-Lessens k owner h (record h { memory_name = name; memories = memories }) refl
set_up-Lessens h name memories m owner k true true false has_sems =
    failed-Lessens k owner h (record h { memory_name = name; memories = memories }) refl
set_up-Lessens h name memories m owner k true true true false =
    failed-Lessens k owner h (record h { memory_name = name; memories = set memories m half_made })
      refl
set_up-Lessens h name memories m owner k true true true true =
    joined-Lessens k m owner h
      (record h { memory_name = name; memories = set memories m (set_up init_queue) }) refl

set_up_memory-Lessens :
    (name : Option ℕ) (h : Host) (owner : Bool) (k : ℕ) (calls : Calls)
    → Lessens k h (set_up_memory calls (record h { memory_name = name }) owner k)
unfolding set_up_memory
set_up_memory-Lessens none h owner k calls =
    set_up-Lessens (record h { memory_name = none }) (some (length h.memories))
      (h.memories ++ blank ∷ []) (length h.memories) owner k calls.opens calls.truncates calls.maps
      calls.has_sems
set_up_memory-Lessens (some m) h owner k calls =
    set_up-Lessens (record h { memory_name = some m }) (some m) h.memories m owner k calls.opens
      calls.truncates calls.maps calls.has_sems

attach_memory-Lessens :
    (name : Option ℕ) (h : Host) (owner : Bool) (k : ℕ)
    → Lessens k h (attach_memory all_succeed (record h { memory_name = name }) owner k)
unfolding attach_memory
attach_memory-Lessens none h owner k =
    joined-Lessens k (length h.memories) owner h
      (record h { memory_name = some (length h.memories); memories = h.memories ++ blank ∷ [] })
      refl
attach_memory-Lessens (some m) h owner k =
    joined-Lessens k m owner h (record h { memory_name = some m }) refl

opened-IsHeld :
    (lock : Option ℕ) (h : Host) (before after : List Process) (owner opens : Bool)
    → AllKnown (length h.locks) (before ++ starting owner ∷ after)
    → IsHeld (record { host = h; processes = before ++ starting owner ∷ after })
    → let r = open_lock opens (record h { lock_name = lock }) owner in
      IsHeld (record { host = r.0; processes = before ++ r.1 ∷ after })
unfolding open_lock
opened-IsHeld none h before after owner opens ks held =
    made-IsHeld h (record h { lock_name = some (length h.locks); locks = h.locks ++ 0 ∷ [] }) before
      after owner refl ks held
opened-IsHeld (some k) h before after owner true ks held =
    replaced-IsHeld h (record h { lock_name = some k }) before after (starting owner)
      (waiting owner k) (λ l. omega arith) held
opened-IsHeld (some k) h before after owner false ks held =
    replaced-IsHeld h (record h { lock_name = some k }) before after (starting owner) null
      (λ l. omega arith) held

Step-IsHeld :
    {s t : System} → Step s t → AllKnown (length s.host.locks) s.processes → IsHeld s → IsHeld t
unfolding wait_lock
Step-IsHeld (opening {h} before after owner opens) ks held =
    opened-IsHeld h.lock_name h before after owner opens ks held
Step-IsHeld (entering {h} {h'} before after owner k p e) ks held =
    passed-IsHeld h before after owner k (get_elem? h.locks k) (h', p) refl e held
Step-IsHeld (setting_up {h} before after owner k calls) ks held =
    replaced-IsHeld h (set_up_memory calls h owner k).0 before after (inside owner false k)
      (set_up_memory calls h owner k).1 (set_up_memory-Lessens h.memory_name h owner k calls) held
Step-IsHeld (attaching {h} before after owner k) ks held =
    replaced-IsHeld h (attach_memory all_succeed h owner k).0 before after (inside owner true k)
      (attach_memory all_succeed h owner k).1 (attach_memory-Lessens h.memory_name h owner k) held
Step-IsHeld (unlinking {h} before after) ks held =
    replaced-IsHeld h (unlink_memory h) before after removing null (λ l. omega arith) held

run-IsHeld :
    {s t : System} → Steps s t → AllKnown (length s.host.locks) s.processes → IsHeld s → IsHeld t
run-IsHeld done ks held = held
run-IsHeld (more x xs) ks held = run-IsHeld xs (Step-AllKnown x ks) (Step-IsHeld x ks held)

starting-holders : (l : ℕ) (owners : List Bool) → holders l (all_starting owners) ≡ 0
starting-holders l [] = refl
starting-holders l (owner ∷ owners) = omega (arith, starting-holders l owners)

-- However processes come to it, of each lock at most one is behind it or can get there.
pub start-IsHeld :
    (owners : List Bool) (s : System)
    → Steps (record { host = no_names; processes = all_starting owners }) s
    → IsHeld s
start-IsHeld owners s r =
    run-IsHeld r (starting_known 0 owners) (λ l. omega (arith, starting-holders l owners))
