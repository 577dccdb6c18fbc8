-- ===== src/Sem/Values.antt =====
-- utils/sem.c: the value of a semaphore, while threads and processes make, use and remove semaphores.
use tp1_so_2c.Base.{
  ℕ, ◌+◌, ◌≡◌, refl, ◌∙◌, Bool, true, false, Option, none, some, List, [], ◌∷◌, ◌==◌, arith,
  if◌then◌else◌,
}
use tp1_so_2c.Base.Int.{ℤ, pos, negsuc}
use tp1_so_2c.Sem.{
  Semaphores, is_taken, ipc_sem_create, value_of, remove, take_one, ipc_sem_wait, ipc_sem_post,
  ipc_sem_destroy,
}
use tp1_so_2c.Sem.Fresh.{ipc_sem_create-IsCreated}
use tp1_so_2c.Sem.Balance.{
  left_by, count_done, wait_signals, take_one-Takes, ipc_sem_post-Gives, value_of-remove, Balanced,
  same-Balanced, after_take, after_give, Created-Balanced,
}

-- The calls that threads and processes make, one after the other. A wait that sleeps leaves all as it is,
-- and is made again later.
pub data Call : Type 0 where
  create : (room set_ok : Bool) → (value : ℕ) → Call
  wait : (signals : ℕ) → ℕ → Call
  post : ℕ → Call
  destroy : Option ℕ → Call

unfoldable pub after_call : ℕ → Call → Semaphores → Semaphores
after_call max_value (create room set_ok value) s = (ipc_sem_create room set_ok value s).1
after_call max_value (wait signals k) s = left_by (ipc_sem_wait signals k s.sets) s
after_call max_value (post k) s = left_by (ipc_sem_post max_value k s.sets) s
after_call max_value (destroy k) s = record s { sets = (ipc_sem_destroy k s.sets).1 }

unfoldable pub run : ℕ → List Call → Semaphores → Semaphores
run max_value [] s = s
run max_value (c ∷ calls) s = run max_value calls (after_call max_value c s)

-- Whether the call is a wait on semaphore `k` that returns 0.
abbrev pub waits_now : ℕ → Call → Semaphores → ℕ
waits_now k (wait signals j) s = count_done (k == j) (ipc_sem_wait signals j s.sets)
waits_now k c s = 0

-- Whether it is a post on it that returns 0.
abbrev pub posts_now : ℕ → ℕ → Call → Semaphores → ℕ
posts_now max_value k (post j) s = count_done (k == j) (ipc_sem_post max_value j s.sets)
posts_now max_value k c s = 0

unfoldable pub waited : ℕ → ℕ → List Call → Semaphores → ℕ
waited max_value k [] s = 0
waited max_value k (c ∷ calls) s =
    waits_now k c s + waited max_value k calls (after_call max_value c s)

unfoldable pub posted : ℕ → ℕ → List Call → Semaphores → ℕ
posted max_value k [] s = 0
posted max_value k (c ∷ calls) s =
    posts_now max_value k c s + posted max_value k calls (after_call max_value c s)

-- No call destroys semaphore `k`.
abbrev pub SparesIt : ℕ → Call → Type 0
SparesIt k (destroy (some j)) = (k == j) ≡ false
SparesIt k c = Unit

abbrev pub Spares : ℕ → List Call → Type 0
Spares k [] = Unit
Spares k (c ∷ calls) = SparesIt k c × Spares k calls

after_call-Balanced :
    (max_value k v : ℕ) (c : Call) (s : Semaphores)
    → value_of k s.sets ≡ some v
    → SparesIt k c
    → Balanced k v (waits_now k c s) (posts_now max_value k c s) (after_call max_value c s)
unfolding after_call ipc_sem_destroy
after_call-Balanced max_value k v (create room set_ok value) s e spares =
    Created-Balanced room set_ok value k v s (ipc_sem_create room set_ok value s) e
      (ipc_sem_create-IsCreated room set_ok value s)
after_call-Balanced max_value k v (wait signals j) s e spares =
    rw (wait_signals signals j s.sets)
      (after_take k v j s (take_one false j s.sets) e (take_one-Takes j s.sets))
after_call-Balanced max_value k v (post j) s e spares =
    after_give k v j s (ipc_sem_post max_value j s.sets) e (ipc_sem_post-Gives max_value j s.sets)
after_call-Balanced max_value k v (destroy none) s e spares = same-Balanced k v s e
after_call-Balanced max_value k v (destroy (some j)) s e spares =
    (v, at_key (is_taken j s.sets), refl)
  where
    at_key :
        (known : Bool)
        → let left : ℤ × List (ℕ × ℕ) =
            if known then (pos 0, remove j s.sets) else (negsuc 0, s.sets) in
          value_of k left.1 ≡ some v
    at_key true = value_of-remove k j s.sets spares ∙ e
    at_key false = e

-- Whatever semaphores are made, used and removed, in any order and with any signals, but for semaphore `k`
-- itself being removed: it has a value, which with the waits on it that have returned 0 makes up the value
-- that it had and the posts on it that have returned 0.
pub run_counts :
    (max_value k v : ℕ) (calls : List Call) (s : Semaphores)
    → value_of k s.sets ≡ some v
    → Spares k calls
    → (w : ℕ) × (value_of k (run max_value calls s).sets ≡ some w)
      × (w + waited max_value k calls s ≡ v + posted max_value k calls s)
unfolding run waited posted
run_counts max_value k v [] s e spares = (v, e, refl)
run_counts max_value k v (c ∷ calls) s e spares =
    let (u, at, sum) = after_call-Balanced max_value k v c s e spares.0 in
    let (w, at_end, whole) =
      run_counts max_value k u calls (after_call max_value c s) at spares.1 in
    (w, at_end, omega (arith, sum, whole))
