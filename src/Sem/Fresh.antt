-- ===== src/Sem/Fresh.antt =====
-- utils/sem.c: the search for a free key, and what `ipc_sem_create` leaves.
use tp1_so_2c.Base.{
  ℕ, zero, suc, ◌+◌, ◌≤◌, ◌<◌, ◌≡◌, refl, ◌⊎◌, inl, inr, Bool, true, false, Bool-cases, List, [],
  ◌∷◌, leb, length, arith, if◌then◌else◌,
}
use tp1_so_2c.Sem.{
  Semaphores, is_taken, created, exists, refused, Search, at_key, out_of_fuel, try_key, find_key,
  Created, made, failed, no_end, behind_search, ipc_sem_create,
}

-- How many sets have keys from `k` on.
abbrev count_from : ℕ → List (ℕ × ℕ) → ℕ
count_from k [] = 0
count_from k ((j, value) ∷ sets) =
    let rest = count_from k sets in if leb k j then suc rest else rest

count_from-length : (k : ℕ) (sets : List (ℕ × ℕ)) → count_from k sets ≤ length sets
count_from-length k [] = omega arith
count_from-length k ((j, value) ∷ sets) = ground (arith, count_from-length k sets)

count_from_next : (k : ℕ) (sets : List (ℕ × ℕ)) → count_from (k + 1) sets ≤ count_from k sets
count_from_next k [] = omega arith
count_from_next k ((j, value) ∷ sets) = ground (arith, count_from_next k sets)

count_from_taken :
    (k : ℕ) (sets : List (ℕ × ℕ))
    → is_taken k sets ≡ true
    → count_from (k + 1) sets < count_from k sets
count_from_taken k [] t = cc
count_from_taken k ((j, value) ∷ sets) t =
    ground (arith, count_from_taken k sets, count_from_next k sets)

-- What the loop over the keys finds.
abbrev Finds : Bool → ℕ → List (ℕ × ℕ) → Search → Type 0
Finds room key sets (at_key created k) = (room ≡ true) × (key ≤ k) × (is_taken k sets ≡ false)
Finds room key sets (at_key refused k) = room ≡ false
Finds room key sets (at_key exists k) = ⊥
Finds room key sets out_of_fuel = ⊥

Finds-later :
    (room : Bool) (key : ℕ) (sets : List (ℕ × ℕ)) (s : Search)
    → Finds room (key + 1) sets s
    → Finds room key sets s
Finds-later room key sets (at_key created k) f = (f.0, omega (arith, f.1), f.2)
Finds-later room key sets (at_key refused k) f = f
Finds-later room key sets (at_key exists k) f = f
Finds-later room key sets out_of_fuel f = f

find_key-Finds :
    (fuel : ℕ) (room : Bool) (key : ℕ) (sets : List (ℕ × ℕ))
    → count_from key sets < fuel
    → Finds room key sets (find_key fuel room key sets)
unfolding find_key
find_key-Finds zero room key sets lt = absurd (omega arith)
find_key-Finds (suc fuel) room key sets lt = elim (Bool-cases (is_taken key sets)) [
  | inl t ↦ rw t (
      Finds-later room key sets (find_key fuel room (key + 1) sets)
        (find_key-Finds fuel room (key + 1) sets (omega (arith, lt, count_from_taken key sets t))))
  | inr free ↦ rw free (at_free room free)
]
  where
    at_free :
        (room : Bool)
        → is_taken key sets ≡ false
        → Finds room key sets
            (try_key (if room then created else refused) key (find_key fuel room (key + 1) sets))
    at_free true free = (refl, omega arith, free)
    at_free false free = refl

-- What `ipc_sem_create` leaves.
abbrev pub IsCreated : Bool → Bool → ℕ → Semaphores → Created × Semaphores → Type 0
IsCreated room set_ok value s (made k, s') =
    (room ≡ true)
    × (set_ok ≡ true)
    × (s.key ≤ k)
    × (is_taken k s.sets ≡ false)
    × (s'.sets ≡ (k, value) ∷ s.sets)
    × (s'.key ≡ k + 1)
IsCreated room set_ok value s (failed, s') =
    ((room ≡ false) ⊎ (set_ok ≡ false)) × (s'.sets ≡ s.sets)
IsCreated room set_ok value s (no_end, s') = ⊥

-- `ipc_sem_create` ends, whatever keys are taken: with a set of the value under a key that was free and that
-- the next call will not try again, or, if the system has no room or does not set the value, with a failure
-- that leaves the sets as they were.
pub ipc_sem_create-IsCreated :
    (room set_ok : Bool) (value : ℕ) (s : Semaphores)
    → IsCreated room set_ok value s (ipc_sem_create room set_ok value s)
unfolding ipc_sem_create
ipc_sem_create-IsCreated room set_ok value s =
    behind set_ok (find_key (suc (length s.sets)) room s.key s.sets) (
      find_key-Finds (suc (length s.sets)) room s.key s.sets
        (omega (arith, count_from-length s.key s.sets)))
  where
    behind :
        (set_ok : Bool) (found : Search)
        → Finds room s.key s.sets found
        → IsCreated room set_ok value s (behind_search set_ok value s found)
    behind true (at_key created k) f = (f.0, refl, f.1, f.2, refl, refl)
    behind false (at_key created k) f = (inr refl, refl)
    behind true (at_key refused k) f = (inl f, refl)
    behind false (at_key refused k) f = (inl f, refl)
    behind set_ok (at_key exists k) f = absurd f
    behind set_ok out_of_fuel f = absurd f
