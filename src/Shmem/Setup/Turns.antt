-- ===== src/Shmem/Setup/Turns.antt =====
-- ipc/shmem.c: what each step of a process does to the guard of the lock.
use tp1_so_2c.Base.{
  ℕ, zero, suc, ◌+◌, ◌<◌, ◌≡◌, refl, sym, subst, Bool, true, false, List, [], ◌∷◌, ◌++◌, Option,
  none, some, arith, length, get_elem?, set,
}
use tp1_so_2c.Shmem.Setup.{
  Memory, Host, Process, starting, waiting, inside, connected, null, open_lock, System,
}
use tp1_so_2c.Shmem.Setup.Guard.{
  behind, insiders, posts, IsReady, IsServed, AllServed, IsPosted, IsNamed, Guarded,
  insiders-middle, posts-set, posts-append, parts_around, served_replaced, none_served,
}

-- The system around one process.
abbrev pub around : Host → List Process → List Process → Process → System
around h before after p = record { host = h; processes = before ++ p ∷ after }

no_posts : (n : ℕ) (name : Option ℕ) (memories : List Memory) → n ≡ 0 → IsPosted n name memories
no_posts zero name memories e = tt
no_posts (suc n) name memories e = cc

-- A process that makes the lock is the only one behind a lock.
lock_made-Guarded :
    (name : Option ℕ) (locks : List ℕ) (memories : List Memory) (before after : List Process)
    (owner : Bool)
    → Guarded (
        around
          (record { lock_name = none; memory_name = name; locks = locks; memories = memories })
          before
          after
          (starting owner))
    → Guarded (
        around
          (record {
            lock_name = some (length locks);
            memory_name = name;
            locks = locks ++ 0 ∷ [];
            memories = memories;
          })
          before
          after
          (inside owner false (length locks)))
lock_made-Guarded name locks memories before after owner g =
    let (no_others, no_memory) = g.named in
    let (b, _, a) = parts_around name memories before after (starting owner) g.served in
    let none_left : posts (locks ++ 0 ∷ []) ≡ 0 =
      omega (arith, posts-append locks (0 ∷ []), no_others) in
    record {
      alone = omega (
        arith,
        insiders-middle before after (starting owner),
        insiders-middle before after (inside owner false (length locks)),
        none_left,
        no_others,
      );
      named = tt;
      served =
          served_replaced name memories before after (inside owner false (length locks)) b no_memory
            a;
      posted = no_posts _ name memories none_left;
    }

-- A process whose state is of no account takes the place of another.
idle-Guarded :
    (h : Host) (before after : List Process) (p p' : Process)
    → behind p ≡ 0
    → behind p' ≡ 0
    → IsServed h.memory_name h.memories p'
    → Guarded (around h before after p)
    → Guarded (around h before after p')
idle-Guarded h before after p p' e e' s g =
    let same : insiders (before ++ p' ∷ after) ≡ insiders (before ++ p ∷ after) =
      omega (arith, insiders-middle before after p, insiders-middle before after p', e, e') in
    let (b, _, a) = parts_around h.memory_name h.memories before after p g.served in
    record {
      alone = omega (arith, same, g.alone);
      named = subst (λ n. IsNamed h.lock_name h.memory_name (n + posts h.locks)) (sym same) g.named;
      served = served_replaced h.memory_name h.memories before after p' b s a;
      posted = g.posted;
    }

pub open_lock-Guarded :
    (lock name : Option ℕ) (locks : List ℕ) (memories : List Memory) (before after : List Process)
    (owner opens : Bool)
    → let h : Host = record {
      lock_name = lock;
      memory_name = name;
      locks = locks;
      memories = memories;
    } in
      Guarded (around h before after (starting owner))
      → Guarded (around (open_lock opens h owner).0 before after (open_lock opens h owner).1)
unfolding open_lock
open_lock-Guarded none name locks memories before after owner opens g =
    lock_made-Guarded name locks memories before after owner g
open_lock-Guarded (some l) name locks memories before after owner true g =
    idle-Guarded _ before after (starting owner) (waiting owner l) refl refl tt g
open_lock-Guarded (some l) name locks memories before after owner false g =
    idle-Guarded _ before after (starting owner) null refl refl tt g

posts_found :
    (n : ℕ) (name : Option ℕ) (memories : List Memory)
    → 0 < n
    → IsPosted n name memories
    → (m : ℕ) × IsReady name memories m
posts_found zero name memories h r = absurd (omega arith)
posts_found (suc n) name memories h r = r

ready_posts :
    (n m : ℕ) (name : Option ℕ) (memories : List Memory)
    → IsReady name memories m
    → IsPosted n name memories
ready_posts zero m name memories r = tt
ready_posts (suc n) m name memories r = (m, r)

-- A process that gets the lock finds the memory ready.
pub entered-Guarded :
    (h : Host) (before after : List Process) (owner : Bool) (l v : ℕ)
    → get_elem? h.locks l ≡ some (suc v)
    → Guarded (around h before after (waiting owner l))
    → Guarded (around (record h { locks = set h.locks l v }) before after (inside owner true l))
entered-Guarded h before after owner l v e g =
    let fewer = posts-set h.locks l (suc v) v e in
    let was = insiders-middle before after (waiting owner l) in
    let is = insiders-middle before after (inside owner true l) in
    let total : insiders (before ++ waiting owner l ∷ after) + posts h.locks
        ≡ insiders (before ++ inside owner true l ∷ after) + posts (set h.locks l v) =
      omega (arith, fewer, was, is) in
    let (b, _, a) = parts_around h.memory_name h.memories before after (waiting owner l) g.served in
    let ready =
      posts_found (posts h.locks) h.memory_name h.memories (omega (arith, fewer)) g.posted in
    record {
      alone = omega (arith, total, g.alone);
      named = subst (IsNamed h.lock_name h.memory_name) total g.named;
      served =
          served_replaced h.memory_name h.memories before after (inside owner true l) b ready a;
      posted = no_posts _ h.memory_name h.memories (omega (arith, fewer, was, g.alone, is, total));
    }

-- Somebody is behind a lock, so there is one.
pub lock_exists :
    (lock name name' : Option ℕ) (n k : ℕ) → 0 < n → IsNamed lock name n → IsNamed lock name' k
lock_exists none name name' n k h (e, _) = absurd (omega (arith, e))
lock_exists (some l) name name' n k h named = tt

-- Besides the process behind a lock there is no other, and no lock to take.
pub alone_inside :
    (h : Host) (before after : List Process) (owner inited : Bool) (l : ℕ)
    → Guarded (around h before after (inside owner inited l))
    → (insiders before ≡ 0) × (insiders after ≡ 0) × (posts h.locks ≡ 0)
alone_inside h before after owner inited l g =
    let is = insiders-middle before after (inside owner inited l) in
    (omega (arith, is, g.alone), omega (arith, is, g.alone), omega (arith, is, g.alone))

-- The process that sets the memory up fails.
pub failed-Guarded :
    (h : Host) (lock' name' : Option ℕ) (memories' : List Memory) (before after : List Process)
    (owner : Bool) (l : ℕ)
    → Guarded (around h before after (inside owner false l))
    → IsNamed lock' name' 0
    → Guarded (
        around
          (record { lock_name = lock'; memory_name = name'; locks = h.locks; memories = memories' })
          before
          after
          null)
failed-Guarded h lock' name' memories' before after owner l g named =
    let (no_before, no_after, none_left) = alone_inside h before after owner false l g in
    let (b, no_memory, a) =
      parts_around h.memory_name h.memories before after (inside owner false l) g.served in
    let nobody : insiders (before ++ null ∷ after) + posts h.locks ≡ 0 =
      omega (arith, insiders-middle before after null, no_before, no_after, none_left) in
    record {
      alone = omega (arith, nobody);
      named = subst (IsNamed lock' name') (sym nobody) named;
      served =
          served_replaced name' memories' before after null
            (none_served name' h.memories memories' before no_before
              (subst (λ n. AllServed n h.memories before) no_memory b))
            tt
            (none_served name' h.memories memories' after no_after
              (subst (λ n. AllServed n h.memories after) no_memory a));
      posted = no_posts _ name' memories' none_left;
    }

-- A process behind a lock leaves it with a connection.
pub joined-Guarded :
    (h : Host) (before after : List Process) (owner : Bool) (l m : ℕ)
    → (o : Option ℕ) → get_elem? h.locks l ≡ o
    → (insiders before ≡ 0) × (insiders after ≡ 0) × (posts h.locks ≡ 0)
    → AllServed h.memory_name h.memories before
    → IsReady h.memory_name h.memories m
    → AllServed h.memory_name h.memories after
    → IsNamed h.lock_name h.memory_name 1
    → Guarded (
        around
          (elim o [ some v ↦ record h { locks = set h.locks l (suc v) } | none ↦ h ])
          before
          after
          (connected owner l m))
joined-Guarded h before after owner l m none e (nb, na, np) b r a named =
    let is = insiders-middle before after (connected owner l m) in
    record {
      alone = omega (arith, is, nb, na, np);
      named = lock_exists h.lock_name h.memory_name h.memory_name 1 _ (omega arith) named;
      served = served_replaced h.memory_name h.memories before after (connected owner l m) b r a;
      posted = ready_posts _ m h.memory_name h.memories r;
    }
joined-Guarded h before after owner l m (some v) e (nb, na, np) b r a named =
    let is = insiders-middle before after (connected owner l m) in
    record {
      alone = omega (arith, is, nb, na, np, posts-set h.locks l v (suc v) e);
      named = lock_exists h.lock_name h.memory_name h.memory_name 1 _ (omega arith) named;
      served = served_replaced h.memory_name h.memories before after (connected owner l m) b r a;
      posted = ready_posts _ m h.memory_name h.memories r;
    }
