-- ===== src/Shmem/Setup/Failure.antt =====
-- ipc/shmem.c: what becomes of the others when the process that has made the lock fails.
use tp1_so_2c.Base.{
  ℕ, ◌≡◌, refl, ap, inl, inr, Bool, true, false, List, ◌∷◌, ◌++◌, Option, none, some, some_inj,
  get_elem?,
}
use mathlib.Core.Option.{none-ne-some}
use tp1_so_2c.Shmem.Setup.{
  Process, starting, waiting, inside, wait_lock, System, Step, opening, entering, setting_up,
  attaching, unlinking, unlink_memory, removing, null,
}
use tp1_so_2c.Shmem.Setup.Others.{
  IsAbandoned, middle_is_off, beside, stays, opened, set_up_memory-other, attach_memory-other,
  entered_other,
}

-- Where a process is that waits for the lock.
abbrev pub WaitsAt : System → ℕ → Bool → ℕ → Type 0
WaitsAt s i owner l = get_elem? s.processes i ≡ some (waiting owner l)

abbrev waits_for : Process → Option ℕ
waits_for (waiting owner l) = some l
waits_for _ = none

still_waits :
    (before after : List Process) (p p' : Process) (i l : ℕ) (owner : Bool)
    → ((waits_for p ≡ some l) → ⊥)
    → get_elem? (before ++ p ∷ after) i ≡ some (waiting owner l)
    → get_elem? (before ++ p' ∷ after) i ≡ some (waiting owner l)
still_waits before after p p' i l owner ne w =
    elim (beside before after p p' (waiting owner l) i w) [
      | inl e ↦ e
      | inr e ↦ absurd (ne (ap waits_for e))
    ]

no_wait : (l : ℕ) → ¬ (none ≡ some l)
no_wait l e = none-ne-some l e

pub Step-IsAbandoned : {s t : System} (l : ℕ) → Step s t → IsAbandoned l s → IsAbandoned l t
unfolding wait_lock
Step-IsAbandoned l (opening {h} before after owner opens) a =
    let (held, away) = opened h.lock_name h owner opens l a.held in
    stays h _ before after (starting owner) _ l a held away
Step-IsAbandoned l (entering {h} {h'} before after owner k p e) a =
    let (_, held, away) = entered_other h owner k l (get_elem? h.locks k) (h', p) a.held refl e in
    stays h _ before after (waiting owner k) _ l a held away
Step-IsAbandoned l (setting_up {h} before after owner k calls) a =
    let ne = middle_is_off l before after (inside owner false k) a.away in
    let (held, away) = set_up_memory-other h.memory_name h owner k l calls ne a.held in
    stays h _ before after (inside owner false k) _ l a held away
Step-IsAbandoned l (attaching {h} before after owner k) a =
    let ne = middle_is_off l before after (inside owner true k) a.away in
    let (held, away) = attach_memory-other h.memory_name h owner k l ne a.held in
    stays h _ before after (inside owner true k) _ l a held away
Step-IsAbandoned l (unlinking {h} before after) a =
    stays h (unlink_memory h) before after removing null l a a.held tt

pub Step-WaitsAt :
    {s t : System} (l i : ℕ) (owner : Bool)
    → Step s t
    → IsAbandoned l s
    → WaitsAt s i owner l
    → WaitsAt t i owner l
unfolding wait_lock
Step-WaitsAt l i owner (opening before after o opens) a w =
    still_waits before after (starting o) _ i l owner (no_wait l) w
Step-WaitsAt l i owner (entering {h} {h'} before after o k p e) a w =
    let (ne, _, _) = entered_other h o k l (get_elem? h.locks k) (h', p) a.held refl e in
    still_waits before after (waiting o k) _ i l owner (λ same. ne (some_inj same)) w
Step-WaitsAt l i owner (setting_up before after o k calls) a w =
    still_waits before after (inside o false k) _ i l owner (no_wait l) w
Step-WaitsAt l i owner (attaching before after o k) a w =
    still_waits before after (inside o true k) _ i l owner (no_wait l) w
Step-WaitsAt l i owner (unlinking before after) a w =
    still_waits before after removing null i l owner (no_wait l) w
