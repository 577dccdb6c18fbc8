-- ===== src/Shmem/Setup/Guard.antt =====
-- ipc/shmem.c: the lock of a queue in shared memory guards its setting up.
use tp1_so_2c.Base.{
  ℕ, zero, suc, ◌+◌, ◌≤◌, ◌≡◌, true, false, List, [], ◌∷◌, ◌++◌, Option, none, some, some_inj,
  arith, get_elem?, set,
}
use tp1_so_2c.Shmem.{Queue}
use tp1_so_2c.Shmem.Setup.{
  Memory, set_up, Process, starting, waiting, inside, connected, removing, null, System,
}

-- How many processes are behind a lock.
abbrev pub behind : Process → ℕ
behind (inside owner inited l) = 1
behind _ = 0

abbrev pub insiders : List Process → ℕ
insiders [] = 0
insiders (p ∷ ps) = behind p + insiders ps

-- The posts that the locks hold.
abbrev pub posts : List ℕ → ℕ
posts [] = 0
posts (v ∷ vs) = v + posts vs

-- The memory is the one under the name, and is ready for use.
abbrev pub IsReady : Option ℕ → List Memory → ℕ → Type 0
IsReady name memories m = (name ≡ some m) × ((q : Queue) × (get_elem? memories m ≡ some (set_up q)))

-- What holds of a process when none is about to remove the name of the memory: if it sets the memory up, there was none; if it has found it, or is
-- connected to it, then it is ready.
abbrev pub IsServed : Option ℕ → List Memory → Process → Type 0
IsServed name memories (starting owner) = Unit
IsServed name memories (waiting owner l) = Unit
IsServed name memories (inside owner false l) = name ≡ none
IsServed name memories (inside owner true l) = (m : ℕ) × IsReady name memories m
IsServed name memories (connected owner l m) = IsReady name memories m
IsServed name memories null = Unit
IsServed name memories removing = ⊥

abbrev pub AllServed : Option ℕ → List Memory → List Process → Type 0
AllServed name memories [] = Unit
AllServed name memories (p ∷ ps) = IsServed name memories p × AllServed name memories ps

-- No lock can be taken, or the memory that it guards is ready.
abbrev pub IsPosted : ℕ → Option ℕ → List Memory → Type 0
IsPosted zero name memories = Unit
IsPosted (suc n) name memories = (m : ℕ) × IsReady name memories m

-- Without a lock there is no memory, and nobody behind a lock.
abbrev pub IsNamed : Option ℕ → Option ℕ → ℕ → Type 0
IsNamed none name n = (n ≡ 0) × (name ≡ none)
IsNamed (some l) name n = Unit

-- At most one process is behind a lock or can get there; each is served; and a lock that can be taken
-- guards memory that is ready.
pub record Guarded (s : System) : Type 0 where
  pub alone : insiders s.processes + posts s.host.locks ≤ 1
  pub named :
      IsNamed s.host.lock_name s.host.memory_name (insiders s.processes + posts s.host.locks)
  pub served : AllServed s.host.memory_name s.host.memories s.processes
  pub posted : IsPosted (posts s.host.locks) s.host.memory_name s.host.memories

pub insiders-middle :
    (before after : List Process) (p : Process)
    → insiders (before ++ p ∷ after) ≡ insiders before + behind p + insiders after
insiders-middle [] after p = omega arith
insiders-middle (q ∷ before) after p = omega (arith, insiders-middle before after p)

pub posts-set :
    (vs : List ℕ) (l v w : ℕ) → get_elem? vs l ≡ some v → posts (set vs l w) + v ≡ posts vs + w
posts-set [] l v w e = cc
posts-set (x ∷ vs) zero v w e = omega (arith, some_inj e)
posts-set (x ∷ vs) (suc l) v w e = omega (arith, posts-set vs l v w e)

pub posts-append : (vs ws : List ℕ) → posts (vs ++ ws) ≡ posts vs + posts ws
posts-append [] ws = omega arith
posts-append (v ∷ vs) ws = omega (arith, posts-append vs ws)

module _ (name : Option ℕ) (memories : List Memory) where
  pub parts_around :
      (before after : List Process) (p : Process)
      → AllServed name memories (before ++ p ∷ after)
      → AllServed name memories before × IsServed name memories p × AllServed name memories after
  parts_around [] after p (s, ss) = (tt, s, ss)
  parts_around (q ∷ before) after p (s, ss) =
      let (b, m, a) = parts_around before after p ss in ((s, b), m, a)

  pub served_replaced :
      (before after : List Process) (p : Process)
      → AllServed name memories before
      → IsServed name memories p
      → AllServed name memories after
      → AllServed name memories (before ++ p ∷ after)
  served_replaced [] after p b m a = (m, a)
  served_replaced (q ∷ before) after p (s, b) m a = (s, served_replaced before after p b m a)

-- Nobody behind a lock or connected has anything to lose when there is no memory.
pub none_served :
    (name' : Option ℕ) (memories memories' : List Memory) (ps : List Process)
    → insiders ps ≡ 0
    → AllServed none memories ps
    → AllServed name' memories' ps
none_served name' memories memories' [] e s = tt
none_served name' memories memories' (starting owner ∷ ps) e (s, ss) =
    (tt, none_served name' memories memories' ps (omega (arith, e)) ss)
none_served name' memories memories' (waiting owner l ∷ ps) e (s, ss) =
    (tt, none_served name' memories memories' ps (omega (arith, e)) ss)
none_served name' memories memories' (inside owner inited l ∷ ps) e s = absurd (omega (arith, e))
none_served name' memories memories' (connected owner l m ∷ ps) e (s, ss) = cc
none_served name' memories memories' (removing ∷ ps) e (s, ss) = absurd s
none_served name' memories memories' (null ∷ ps) e (s, ss) =
    (tt, none_served name' memories memories' ps (omega (arith, e)) ss)
