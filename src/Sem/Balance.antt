-- ===== src/Sem/Balance.antt =====
-- utils/sem.c: what each function does to the value of a semaphore.
use tp1_so_2c.Base.{
  ℕ, zero, suc, ◌+◌, ◌≡◌, refl, ap, sym, ◌∙◌, subst, inl, inr, Bool, true, false, Bool-cases,
  Option, none, some, some_inj, List, [], ◌∷◌, ◌==◌, ==_iff, ltb, arith, if◌then◌else◌,
}
use tp1_so_2c.Sem.{
  Semaphores, is_taken, Created, made, failed, no_end, value_of, set_value, remove, Semop, changed,
  interrupted, errs, sleeps, take_one, try_again, ipc_sem_wait, ipc_sem_post,
}
use tp1_so_2c.Sem.Fresh.{IsCreated}

-- What a call of `semop` leaves.
abbrev pub left_by : Semop → Semaphores → Semaphores
left_by (changed sets) s = record s { sets = sets }
left_by r s = s

-- Whether `semop` has returned 0.
abbrev pub count_done : Bool → Semop → ℕ
count_done here (changed sets) = if here then 1 else 0
count_done here r = 0

value_of-set_value :
    (k v w : ℕ) (sets : List (ℕ × ℕ))
    → value_of k sets ≡ some v
    → value_of k (set_value k w sets) ≡ some w
value_of-set_value k v w [] e = cc
value_of-set_value k v w ((j, old) ∷ sets) e = ground (arith, value_of-set_value k v w sets)

value_of-set_other :
    (k j w : ℕ) (sets : List (ℕ × ℕ))
    → (k == j) ≡ false
    → value_of k (set_value j w sets) ≡ value_of k sets
value_of-set_other k j w [] n = refl
value_of-set_other k j w ((i, old) ∷ sets) n = ground (arith, value_of-set_other k j w sets)

pub value_of-remove :
    (k j : ℕ) (sets : List (ℕ × ℕ))
    → (k == j) ≡ false
    → value_of k (remove j sets) ≡ value_of k sets
value_of-remove k j [] n = refl
value_of-remove k j ((i, old) ∷ sets) n = ground (arith, value_of-remove k j sets)

value_of-is_taken :
    (k v : ℕ) (sets : List (ℕ × ℕ)) → value_of k sets ≡ some v → is_taken k sets ≡ true
value_of-is_taken k v [] e = cc
value_of-is_taken k v ((j, w) ∷ sets) e = ground (arith, value_of-is_taken k v sets)

try_again-take_one :
    (k : ℕ) (sets : List (ℕ × ℕ))
    → try_again (take_one true k sets) (take_one false k sets) ≡ take_one false k sets
unfolding take_one
try_again-take_one k sets = ground arith

-- Signals do not change what a wait does.
pub wait_signals : (n k : ℕ) (sets : List (ℕ × ℕ)) → ipc_sem_wait n k sets ≡ take_one false k sets
unfolding ipc_sem_wait
wait_signals zero k sets = refl
wait_signals (suc n) k sets = rw (wait_signals n k sets) (try_again-take_one k sets)

-- What a call of `semop` has done if it returns 0: it has taken one from a value, or given one to it.
abbrev pub Takes : ℕ → List (ℕ × ℕ) → Semop → Type 0
Takes j sets (changed sets') =
    (u : ℕ) × (value_of j sets ≡ some (suc u)) × (sets' ≡ set_value j u sets)
Takes j sets r = Unit

abbrev pub Gives : ℕ → List (ℕ × ℕ) → Semop → Type 0
Gives j sets (changed sets') =
    (u : ℕ) × (value_of j sets ≡ some u) × (sets' ≡ set_value j (suc u) sets)
Gives j sets r = Unit

pub take_one-Takes : (j : ℕ) (sets : List (ℕ × ℕ)) → Takes j sets (take_one false j sets)
unfolding take_one
take_one-Takes j sets = at_value (value_of j sets) refl
  where
    at_value :
        (value : Option ℕ)
        → value_of j sets ≡ value
        → Takes j sets (elim value [
          | none ↦ errs
          | some zero ↦ sleeps
          | some (suc u) ↦ changed (set_value j u sets)
        ])
    at_value none e = tt
    at_value (some zero) e = tt
    at_value (some (suc u)) e = (u, e, refl)

pub ipc_sem_post-Gives :
    (max_value j : ℕ) (sets : List (ℕ × ℕ)) → Gives j sets (ipc_sem_post max_value j sets)
unfolding ipc_sem_post
ipc_sem_post-Gives max_value j sets = at_value (value_of j sets) refl
  where
    at_room :
        (u : ℕ) (room : Bool)
        → value_of j sets ≡ some u
        → Gives j sets (if room then changed (set_value j (suc u) sets) else errs)
    at_room u true e = (u, e, refl)
    at_room u false e = tt

    at_value :
        (value : Option ℕ)
        → value_of j sets ≡ value
        → Gives j sets (elim value [
          | none ↦ errs
          | some u ↦ if ltb u max_value then changed (set_value j (suc u) sets) else errs
        ])
    at_value none e = tt
    at_value (some u) e = at_room u (ltb u max_value) e

-- After a call, what semaphore `k` has and what was taken from it, `t`, make up what it had and what was
-- given to it, `g`.
abbrev pub Balanced : ℕ → ℕ → ℕ → ℕ → Semaphores → Type 0
Balanced k v t g s = (w : ℕ) × (value_of k s.sets ≡ some w) × (w + t ≡ v + g)

-- It is left alone.
pub same-Balanced : (k v : ℕ) (s : Semaphores) → value_of k s.sets ≡ some v → Balanced k v 0 0 s
same-Balanced k v s e = (v, e, refl)

set_here-Balanced :
    (k j v u new t g : ℕ) (s : Semaphores)
    → (k == j) ≡ true
    → value_of k s.sets ≡ some v
    → value_of j s.sets ≡ some u
    → new + t ≡ u + g
    → Balanced k v t g (record s { sets = set_value j new s.sets })
set_here-Balanced k j v u new t g s same e e' sum =
    let k_is_j : k ≡ j = (==_iff k j).0 same in
    let v_is_u : v ≡ u = some_inj (sym e ∙ ap (λ i. value_of i s.sets) k_is_j ∙ e') in
    (
      new,
      subst (λ i. value_of k (set_value i new s.sets) ≡ some new) k_is_j
          (value_of-set_value k v new s.sets e),
      omega (arith, v_is_u, sum),
    )

set_other-Balanced :
    (k j v new : ℕ) (s : Semaphores)
    → (k == j) ≡ false
    → value_of k s.sets ≡ some v
    → Balanced k v 0 0 (record s { sets = set_value j new s.sets })
set_other-Balanced k j v new s other e = (v, value_of-set_other k j new s.sets other ∙ e, refl)

pub after_take :
    (k v j : ℕ) (s : Semaphores) (r : Semop)
    → value_of k s.sets ≡ some v
    → Takes j s.sets r
    → Balanced k v (count_done (k == j) r) 0 (left_by r s)
after_take k v j s interrupted e t = same-Balanced k v s e
after_take k v j s errs e t = same-Balanced k v s e
after_take k v j s sleeps e t = same-Balanced k v s e
after_take k v j s (changed sets) e (u, at, is) = elim (Bool-cases (k == j)) [
  | inl same ↦ rw (is, same) (set_here-Balanced k j v (suc u) u 1 0 s same e at (omega arith))
  | inr other ↦ rw (is, other) (set_other-Balanced k j v u s other e)
]

pub after_give :
    (k v j : ℕ) (s : Semaphores) (r : Semop)
    → value_of k s.sets ≡ some v
    → Gives j s.sets r
    → Balanced k v 0 (count_done (k == j) r) (left_by r s)
after_give k v j s interrupted e t = same-Balanced k v s e
after_give k v j s errs e t = same-Balanced k v s e
after_give k v j s sleeps e t = same-Balanced k v s e
after_give k v j s (changed sets) e (u, at, is) = elim (Bool-cases (k == j)) [
  | inl same ↦ rw (is, same) (set_here-Balanced k j v u (suc u) 0 1 s same e at (omega arith))
  | inr other ↦ rw (is, other) (set_other-Balanced k j v (suc u) s other e)
]

-- A new set is under a key that no other has.
value_of_next :
    (k j v value : ℕ) (sets : List (ℕ × ℕ))
    → is_taken j sets ≡ false
    → value_of k sets ≡ some v
    → value_of k ((j, value) ∷ sets) ≡ some v
value_of_next k j v value sets free e = elim (Bool-cases (k == j)) [
  | inl same ↦
      let taken = value_of-is_taken k v sets e in
      let free_too : is_taken k sets ≡ false =
        ap (λ i. is_taken i sets) ((==_iff k j).0 same) ∙ free in
      cc
  | inr other ↦ rw other e
]

pub Created-Balanced :
    (room set_ok : Bool) (value k v : ℕ) (s : Semaphores) (r : Created × Semaphores)
    → value_of k s.sets ≡ some v
    → IsCreated room set_ok value s r
    → Balanced k v 0 0 r.1
Created-Balanced room set_ok value k v s (made j, s') e c =
    (v, ap (value_of k) c.4 ∙ value_of_next k j v value s.sets c.3 e, refl)
Created-Balanced room set_ok value k v s (failed, s') e c = (v, ap (value_of k) c.1 ∙ e, refl)
Created-Balanced room set_ok value k v s (no_end, s') e c = absurd c
