-- ===== src/Shmem/Order.antt =====
-- ipc/shmem.c: processes that read and write in any interleaving.
use tp1_so_2c.Base.{
  ℕ, suc, ◌-◌, ◌≤◌, ◌<◌, ◌≡◌, refl, ap, sym, ◌∙◌, subst, List, [], ◌∷◌, ◌++◌, none, some, some_inj,
  arith, length, take, Bool, true, false, if◌then◌else◌, ◌==◌,
}
use mathlib.Core.List.{append_assoc, append-nil}
use tp1_so_2c.Shmem.{Queue, wait_to_read, wait_to_write, read_locked, write_locked}
use tp1_so_2c.Shmem.Slots.{Holds}
use tp1_so_2c.Shmem.Transfer.{write_locked-Holds, read_locked-Holds}

-- The queue, and how many processes are between their semaphore and the lock.
pub record System : Type 0 where
  pub queue : Queue
  pub readers : ℕ
  pub writers : ℕ

abbrev pub sys : Queue → ℕ → ℕ → System
sys q r w = record { queue = q; readers = r; writers = w }

-- The systems that some steps lead to, with the messages that are written on the way, and the lengths
-- and results of the reads.
pub data Run (max : ℕ) (s : System) : List (List ℕ) → List (ℕ × List ℕ) → System → Type 0 where
  start : Run max s [] [] s
  enter_read :
      {ws : List (List ℕ)} {rs : List (ℕ × List ℕ)} {q q' : Queue} {r w : ℕ}
      → Run max s ws rs (sys q r w)
      → wait_to_read q ≡ some q'
      → Run max s ws rs (sys q' (suc r) w)
  enter_write :
      {ws : List (List ℕ)} {rs : List (ℕ × List ℕ)} {q q' : Queue} {r w : ℕ}
      → Run max s ws rs (sys q r w)
      → wait_to_write q ≡ some q'
      → Run max s ws rs (sys q' r (suc w))
  leave_read :
      {ws : List (List ℕ)} {rs : List (ℕ × List ℕ)} {q q' : Queue} {r w : ℕ} (len : ℕ)
      {bytes : List ℕ}
      → Run max s ws rs (sys q (suc r) w)
      → read_locked q len ≡ some (q', bytes)
      → Run max s ws (rs ++ (len, bytes) ∷ []) (sys q' r w)
  leave_write :
      {ws : List (List ℕ)} {rs : List (ℕ × List ℕ)} {q q' : Queue} {r w n : ℕ} (m : List ℕ)
      → Run max s ws rs (sys q r (suc w))
      → 0 < length m
      → length m ≤ max
      → write_locked max q m ≡ some (q', n)
      → Run max s (ws ++ m ∷ []) rs (sys q' r w)

-- Each read gives as much of its message as the buffer takes.
abbrev pub AreCut : List (List ℕ) → List (ℕ × List ℕ) → Type 0
AreCut [] [] = Unit
AreCut (m ∷ ms) ((len, bytes) ∷ rs) = (bytes ≡ take len m) × AreCut ms rs
AreCut _ _ = ⊥

AreCut-add :
    (ms : List (List ℕ)) (rs : List (ℕ × List ℕ)) (m bytes : List ℕ) (len : ℕ)
    → AreCut ms rs
    → bytes ≡ take len m
    → AreCut (ms ++ m ∷ []) (rs ++ (len, bytes) ∷ [])
AreCut-add [] [] m bytes len c e = (e, tt)
AreCut-add [] (r ∷ rs) m bytes len c e = absurd c
AreCut-add (n ∷ ms) [] m bytes len c e = absurd c
AreCut-add (n ∷ ms) ((l, bs) ∷ rs) m bytes len c e = (c.0, AreCut-add ms rs m bytes len c.1 e)

entered :
    (b : Bool) (q q' : Queue) → (if b then none else some q) ≡ some q' → (b ≡ false) × (q ≡ q')
entered true q q' e = cc
entered false q q' e = (refl, some_inj e)

positive : (n : ℕ) → (n == 0) ≡ false → 0 < n
positive n e = ground arith

enter_read-Holds :
    (q q' : Queue) (ms : List (List ℕ)) (r w : ℕ)
    → wait_to_read q ≡ some q'
    → Holds q ms r w
    → Holds q' ms (suc r) w
unfolding wait_to_read
enter_read-Holds q q' ms r w e h =
    let (some_left, same) =
      entered (q.read_wait == 0) (record q { read_wait = q.read_wait - 1 }) q' e in
    subst (λ k. Holds k ms (suc r) w) same
      (record {
        used = h.used;
        unused = h.unused;
        index = h.index;
        places = h.places;
        stored = h.stored;
        different = h.different;
        free = h.free;
        slots = h.slots;
        read_wait = omega (arith, positive q.read_wait some_left, h.read_wait);
        write_sem = h.write_sem;
      })

pub enter_write-Holds :
    (q q' : Queue) (ms : List (List ℕ)) (r w : ℕ)
    → wait_to_write q ≡ some q'
    → Holds q ms r w
    → Holds q' ms r (suc w)
unfolding wait_to_write
enter_write-Holds q q' ms r w e h =
    let (some_left, same) =
      entered (q.write_sem == 0) (record q { write_sem = q.write_sem - 1 }) q' e in
    subst (λ k. Holds k ms r (suc w)) same
      (record {
        used = h.used;
        unused = h.unused;
        index = h.index;
        places = h.places;
        stored = h.stored;
        different = h.different;
        free = h.free;
        slots = h.slots;
        read_wait = h.read_wait;
        write_sem = omega (arith, positive q.write_sem some_left, h.write_sem);
      })

-- What was there and what is written is what is read and what is left.
pub record Carried (ms ws : List (List ℕ)) (rs : List (ℕ × List ℕ)) (t : System) : Type 0 where
  pub taken : List (List ℕ)
  pub left : List (List ℕ)
  pub whole : ms ++ ws ≡ taken ++ left
  pub cut : AreCut taken rs
  pub holds : Holds t.queue left t.readers t.writers

after_write :
    {max : ℕ} {ms ws : List (List ℕ)} {rs : List (ℕ × List ℕ)} {q q' : Queue} {r w n : ℕ}
    (m : List ℕ)
    → Carried ms ws rs (sys q r (suc w))
    → 0 < length m
    → length m ≤ max
    → write_locked max q m ≡ some (q', n)
    → Carried ms (ws ++ m ∷ []) rs (sys q' r w)
after_write {max} {ms} {ws} {rs} {q} {q'} {r} {w} {n} m c some_bytes fits e =
    let (q1, e1, h) = write_locked-Holds max q c.left r w m c.holds some_bytes fits in
    let same : (q1, length m) ≡ (q', n) = some_inj (sym e1 ∙ e) in
    record {
      taken = c.taken;
      left = c.left ++ m ∷ [];
      whole =
          sym (append_assoc ms ws (m ∷ []))
          ∙ ap (λ l. l ++ m ∷ []) c.whole
          ∙ append_assoc c.taken c.left (m ∷ []);
      cut = c.cut;
      holds = subst (λ k. Holds k (c.left ++ m ∷ []) r w) (ap (λ p. p.0) same) h;
    }

after_read :
    {ms ws : List (List ℕ)} {q q' : Queue} {r w : ℕ} {bytes : List ℕ} (rs : List (ℕ × List ℕ))
    (len : ℕ)
    → (taken left : List (List ℕ)) → ms ++ ws ≡ taken ++ left
    → AreCut taken rs
    → Holds q left (suc r) w
    → read_locked q len ≡ some (q', bytes)
    → Carried ms ws (rs ++ (len, bytes) ∷ []) (sys q' r w)
after_read rs len taken [] whole cut h e = absurd (omega (arith, h.read_wait))
after_read {ms} {ws} {q} {q'} {r} {w} {bytes} rs len taken (m ∷ left) whole cut h e =
    let (q1, e1, h1) = read_locked-Holds q m left r w len h in
    let same : (q1, take len m) ≡ (q', bytes) = some_inj (sym e1 ∙ e) in
    record {
      taken = taken ++ m ∷ [];
      left = left;
      whole = whole ∙ sym (append_assoc taken (m ∷ []) left);
      cut = AreCut-add taken rs m bytes len cut (sym (ap (λ p. p.1) same));
      holds = subst (λ k. Holds k left r w) (ap (λ p. p.0) same) h1;
    }

-- From a queue that holds some messages, in any interleaving of processes that write messages of 1 to
-- `max` bytes and of processes that read: the messages that were there and those that are written
-- are, in the order of the writes, those that are read, each cut to the buffer of its reader, and
-- those that the queue then holds.
pub Run-Carried :
    (max : ℕ) (s t : System) (ms ws : List (List ℕ)) (rs : List (ℕ × List ℕ))
    → Holds s.queue ms s.readers s.writers
    → Run max s ws rs t
    → Carried ms ws rs t
Run-Carried max s t ms ws rs h start = record {
  taken = [];
  left = ms;
  whole = append-nil ms;
  cut = tt;
  holds = h;
}
Run-Carried max s t ms ws rs h (enter_read {q} {q'} {r} {w} run e) =
    let c = Run-Carried max s (sys q r w) ms ws rs h run in
    record {
      taken = c.taken;
      left = c.left;
      whole = c.whole;
      cut = c.cut;
      holds = enter_read-Holds q q' c.left r w e c.holds;
    }
Run-Carried max s t ms ws rs h (enter_write {q} {q'} {r} {w} run e) =
    let c = Run-Carried max s (sys q r w) ms ws rs h run in
    record {
      taken = c.taken;
      left = c.left;
      whole = c.whole;
      cut = c.cut;
      holds = enter_write-Holds q q' c.left r w e c.holds;
    }
Run-Carried max s t ms ws rs' h (leave_read {rs} {q} {r} {w} len run e) =
    let c = Run-Carried max s (sys q (suc r) w) ms ws rs h run in
    after_read rs len c.taken c.left c.whole c.cut c.holds e
Run-Carried max s t ms ws' rs h (leave_write {ws} {q} {r} {w} m run p f e) =
    after_write m (Run-Carried max s (sys q r (suc w)) ms ws rs h run) p f e
