-- ===== src/Shmem/Setup/Others.antt =====
-- ipc/shmem.c: what a step of a process leaves alone of a lock that is not its own.
use tp1_so_2c.Base.{
  ℕ, zero, suc, ◌≡◌, refl, ap, sym, ◌∙◌, subst, ◌≢◌, ◌⊎◌, inl, inr, Bool, true, false, List, [],
  ◌∷◌, ◌++◌, Option, none, some, some_inj, arith, length, get_elem?, set, if◌then◌else◌,
  get_elem?-set_ne,
}
use tp1_so_2c.Base.Places.{lt-length}
use tp1_so_2c.Shmem.{init_queue}
use tp1_so_2c.Shmem.Setup.{
  blank, half_made, set_up, Host, Process, inside, connected, null, open_lock, post_lock, Calls,
  set_up_memory, attach_memory, after_failure, write_memory, unlink_lock, System, all_succeed,
}

-- Nobody is behind the lock, and it is held.
abbrev pub IsAway : ℕ → Process → Type 0
IsAway l (inside owner inited k) = k ≢ l
IsAway l _ = Unit

abbrev pub AllAway : ℕ → List Process → Type 0
AllAway l [] = Unit
AllAway l (p ∷ ps) = IsAway l p × AllAway l ps

pub record IsAbandoned (l : ℕ) (s : System) : Type 0 where
  pub held : get_elem? s.host.locks l ≡ some 0
  pub away : AllAway l s.processes

pub middle_is_off :
    (l : ℕ) (before after : List Process) (p : Process)
    → AllAway l (before ++ p ∷ after)
    → IsAway l p
middle_is_off l [] after p (a, _) = a
middle_is_off l (q ∷ before) after p (_, rest) = middle_is_off l before after p rest

away_replaced :
    (l : ℕ) (before after : List Process) (p p' : Process)
    → AllAway l (before ++ p ∷ after)
    → IsAway l p'
    → AllAway l (before ++ p' ∷ after)
away_replaced l [] after p p' (_, rest) a = (a, rest)
away_replaced l (q ∷ before) after p p' (b, rest) a = (b, away_replaced l before after p p' rest a)

-- A process that is not the one that steps stays where it is.
pub beside :
    (before after : List Process) (p p' w : Process) (i : ℕ)
    → get_elem? (before ++ p ∷ after) i ≡ some w
    → (get_elem? (before ++ p' ∷ after) i ≡ some w) ⊎ (p ≡ w)
beside [] after p p' w zero e = inr (some_inj e)
beside [] after p p' w (suc i) e = inl e
beside (q ∷ before) after p p' w zero e = inl e
beside (q ∷ before) after p p' w (suc i) e = beside before after p p' w i e

get_appended :
    (vs : List ℕ) (l v w : ℕ) → get_elem? vs l ≡ some v → get_elem? (vs ++ w ∷ []) l ≡ some v
get_appended [] l v w e = cc
get_appended (x ∷ vs) zero v w e = e
get_appended (x ∷ vs) (suc l) v w e = get_appended vs l v w e

-- A post to another lock, with what it finds there.
posted_other :
    (h : Host) (k l v : ℕ) (o : Option ℕ)
    → k ≢ l
    → get_elem? h.locks l ≡ some v
    → let h' : Host = elim o [ some n ↦ record h { locks = set h.locks k (suc n) } | none ↦ h ] in
      get_elem? h'.locks l ≡ some v
posted_other h k l v none ne e = e
posted_other h k l v (some n) ne e = get_elem?-set_ne h.locks (suc n) ne ∙ e

post_lock-other :
    (h : Host) (k l v : ℕ)
    → k ≢ l
    → get_elem? h.locks l ≡ some v
    → get_elem? (post_lock h k).locks l ≡ some v
unfolding post_lock
post_lock-other h k l v ne e = posted_other h k l v (get_elem? h.locks k) ne e

after_failure-IsAway : (owner : Bool) (l : ℕ) → IsAway l (after_failure owner)
after_failure-IsAway true l = tt
after_failure-IsAway false l = tt

unlink_lock-locks : (owner : Bool) (h : Host) → (unlink_lock owner h).locks ≡ h.locks
unlink_lock-locks true h = refl
unlink_lock-locks false h = refl

-- A system in which the processes but one, and the lock, are as they were.
pub stays :
    (h h' : Host) (before after : List Process) (p p' : Process) (l : ℕ)
    → IsAbandoned l (record { host = h; processes = before ++ p ∷ after })
    → get_elem? h'.locks l ≡ some 0
    → IsAway l p'
    → IsAbandoned l (record { host = h'; processes = before ++ p' ∷ after })
stays h h' before after p p' l a held away = record {
  held = held;
  away = away_replaced l before after p p' a.away away;
}

pub opened :
    (lock : Option ℕ) (h : Host) (owner opens : Bool) (l : ℕ)
    → get_elem? h.locks l ≡ some 0
    → let r = open_lock opens (record h { lock_name = lock }) owner in
      (get_elem? r.0.locks l ≡ some 0) × IsAway l r.1
unfolding open_lock
opened none h owner opens l e =
    (get_appended h.locks l 0 0 e, λ same. absurd (omega (arith, same, lt-length h.locks l e)))
opened (some k) h owner true l e = (e, tt)
opened (some k) h owner false l e = (e, tt)

-- The end of `set_up_memory`, with the memory `m` under its name.
set_up_by :
    (h h' : Host) (m : ℕ) (owner : Bool) (k l : ℕ) (opens truncates maps has_sems : Bool)
    → k ≢ l
    → get_elem? h.locks l ≡ some 0
    → get_elem? h'.locks l ≡ some 0
    → let r : Host × Process =
        if opens
        then if truncates
          then if maps
            then if has_sems
              then (post_lock (write_memory h' m (set_up init_queue)) k, connected owner k m)
              else (unlink_lock owner (write_memory h' m half_made), after_failure owner)
            else (unlink_lock owner h', after_failure owner)
          else (unlink_lock owner h', after_failure owner)
        else (unlink_lock owner h, null) in
      (get_elem? r.0.locks l ≡ some 0) × IsAway l r.1
set_up_by h h' m owner k l false truncates maps has_sems ne e e' =
    (ap (λ vs. get_elem? vs l) (unlink_lock-locks owner h) ∙ e, tt)
set_up_by h h' m owner k l true false maps has_sems ne e e' =
    (ap (λ vs. get_elem? vs l) (unlink_lock-locks owner h') ∙ e', after_failure-IsAway owner l)
set_up_by h h' m owner k l true true false has_sems ne e e' =
    (ap (λ vs. get_elem? vs l) (unlink_lock-locks owner h') ∙ e', after_failure-IsAway owner l)
set_up_by h h' m owner k l true true true false ne e e' = (
  ap (λ vs. get_elem? vs l) (unlink_lock-locks owner (write_memory h' m half_made)) ∙ e',
  after_failure-IsAway owner l,
)
set_up_by h h' m owner k l true true true true ne e e' =
    (post_lock-other (write_memory h' m (set_up init_queue)) k l 0 ne e', tt)

pub set_up_memory-other :
    (name : Option ℕ) (h : Host) (owner : Bool) (k l : ℕ) (calls : Calls)
    → k ≢ l
    → get_elem? h.locks l ≡ some 0
    → let r = set_up_memory calls (record h { memory_name = name }) owner k in
      (get_elem? r.0.locks l ≡ some 0) × IsAway l r.1
unfolding set_up_memory
set_up_memory-other none h owner k l calls ne e =
    set_up_by (record h { memory_name = none })
      (record h { memory_name = some (length h.memories); memories = h.memories ++ blank ∷ [] })
      (length h.memories) owner k l calls.opens calls.truncates calls.maps calls.has_sems ne e e
set_up_memory-other (some m) h owner k l calls ne e =
    let h' : Host = record h { memory_name = some m } in
    set_up_by h' h' m owner k l calls.opens calls.truncates calls.maps calls.has_sems ne e e

pub attach_memory-other :
    (name : Option ℕ) (h : Host) (owner : Bool) (k l : ℕ)
    → k ≢ l
    → get_elem? h.locks l ≡ some 0
    → let r = attach_memory all_succeed (record h { memory_name = name }) owner k in
      (get_elem? r.0.locks l ≡ some 0) × IsAway l r.1
unfolding attach_memory
attach_memory-other none h owner k l ne e = (post_lock-other _ k l 0 ne e, tt)
attach_memory-other (some m) h owner k l ne e = (post_lock-other _ k l 0 ne e, tt)

-- A lock that is held by nobody can not be taken.
pub entered_other :
    (h : Host) (owner : Bool) (k l : ℕ) (o : Option ℕ) (r : Host × Process)
    → get_elem? h.locks l ≡ some 0
    → get_elem? h.locks k ≡ o
    → (elim o [
      | some (suc v) ↦ some (record h { locks = set h.locks k v }, inside owner true k)
      | _ ↦ none
    ])
      ≡ some r
    → (k ≢ l) × (get_elem? r.0.locks l ≡ some 0) × IsAway l r.1
entered_other h owner k l none r e at_k went = cc
entered_other h owner k l (some zero) r e at_k went = cc
entered_other h owner k l (some (suc v)) r e at_k went =
    let ne : k ≢ l =
      λ same. absurd (omega (arith, some_inj (sym at_k ∙ ap (get_elem? h.locks) same ∙ e))) in
    subst (λ (r' : Host × Process). (k ≢ l) × (get_elem? r'.0.locks l ≡ some 0) × IsAway l r'.1)
      (some_inj went) (ne, get_elem?-set_ne h.locks v ne ∙ e, ne)
