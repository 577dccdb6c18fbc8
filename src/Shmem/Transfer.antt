-- ===== src/Shmem/Transfer.antt =====
-- ipc/shmem.c: what is written comes out, in the order of the writes.
use tp1_so_2c.Base.{
  ℕ, suc, ◌+◌, ◌-◌, ◌≤◌, ◌<◌, ◌≡◌, refl, ap, ◌∙◌, true, List, [], ◌∷◌, ◌++◌, some, arith, ltb, min,
  length, length-append, length-replicate, length-set, take, take_all, take-min, get_elem?,
  get_elem?-set_self, set, replicate, map,
}
use mathlib.Core.List.{append_assoc}
use tp1_so_2c.Base.Int.{ℤ, pos, negsuc}
use tp1_so_2c.Base.Places.{lt-length}
use tp1_so_2c.Shmem.{
  Entry, Queue, entries_per_queue, find_slot, find_unused, write_locked, shift, read_locked,
}
use tp1_so_2c.Shmem.Slots.{
  Holds, Stored, AreDifferent, free_slots, find_slot_lem, find_unused_lem, set_unused,
  free_slots-fill, free_slots-empty, Stored-Lacks, Stored-set, Stored-add, length-Stored,
  AreDifferent-add, replicate-last,
}

length_of_index :
    (us : List ℕ) (k : ℕ) → length (map pos us ++ replicate k (negsuc 0)) ≡ length us + k
length_of_index [] k = length-replicate k (negsuc 0) ∙ omega arith
length_of_index (u ∷ us) k = omega (arith, length_of_index us k)

ltb-true : (m n : ℕ) → m < n → ltb m n ≡ true
ltb-true m n h = ground arith

-- The queue with a message in slot `slot`, which place `i` of the index names.
abbrev written : Queue → ℕ → ℕ → List ℕ → Queue
written q slot i m = record q {
  index = set q.index i (pos slot);
  slots = set q.slots slot (record { len = length m; content = m });
  read_wait = q.read_wait + 1;
}

write_locked-written :
    (max slot i : ℕ) (q : Queue) (m : List ℕ)
    → find_slot q.slots 0 ≡ slot
    → find_unused q.index 0 ≡ i
    → slot < length q.slots
    → i < length q.index
    → length m ≤ max
    → write_locked max q m ≡ some (written q slot i m, length m)
unfolding write_locked
write_locked-written max slot i q m found unused in_slots in_index fits =
    let len : min (length m) max ≡ length m = omega arith in
    rw (
      found,
      unused,
      ltb-true slot (length q.slots) in_slots,
      ltb-true i (length q.index) in_index,
      len,
      take_all m,
    )

-- A process that is past its semaphore writes a message of 1 to `max` bytes: it finds a slot and a place
-- in the index, and the message stands behind those that the queue held.
pub write_locked-Holds :
    (max : ℕ) (q : Queue) (messages : List (List ℕ)) (readers writers : ℕ) (m : List ℕ)
    → Holds q messages readers (suc writers)
    → 0 < length m
    → length m ≤ max
    → (q' : Queue) × (write_locked max q m ≡ some (q', length m))
      × Holds q' (messages ++ m ∷ []) readers writers
write_locked-Holds max q messages readers writers m h some_bytes fits =
    let stored_len = length-Stored q.slots h.used messages h.stored in
    let room : 0 < free_slots q.slots = omega (arith, h.free, h.write_sem, stored_len) in
    let (j, e, found, at, empty) = find_slot_lem q.slots 0 room in
    let spare : h.unused ≡ suc (h.unused - 1) = omega (arith, h.places, h.write_sem, stored_len) in
    let index : q.index ≡ map pos h.used ++ replicate (suc (h.unused - 1)) (negsuc 0) =
      h.index ∙ ap (λ k. map pos h.used ++ replicate k (negsuc 0)) spare in
    let in_slots = lt-length q.slots j at in
    let lacks = Stored-Lacks q.slots h.used messages j e h.stored at empty in
    let entry : Entry = record { len = length m; content = m } in
    (
      written q j (length h.used) m,
      write_locked-written max j (length h.used) q m (found ∙ omega arith)
          (ap (λ l. find_unused l 0) index ∙ find_unused_lem h.used (h.unused - 1) 0 ∙ omega arith)
          in_slots (omega (arith, ap length index, length_of_index h.used (suc (h.unused - 1))))
          fits,
      record {
        used = h.used ++ j ∷ [];
        unused = h.unused - 1;
        index = ap (λ l. set l (length h.used) (pos j)) index ∙ set_unused h.used (h.unused - 1) j;
        places = omega (arith, length-append h.used (j ∷ []), h.places, spare);
        stored =
            Stored-add (set q.slots j entry) h.used messages j m
              (Stored-set q.slots h.used messages j entry h.stored lacks)
              (get_elem?-set_self q.slots j entry in_slots) some_bytes;
        different = AreDifferent-add j h.used h.different lacks;
        free = omega (
          arith,
          length-append h.used (j ∷ []),
          h.free,
          free_slots-fill q.slots j e entry at empty some_bytes,
        );
        slots = length-set q.slots j entry ∙ h.slots;
        read_wait = omega (arith, length-append messages (m ∷ []), h.read_wait);
        write_sem = omega (arith, length-append messages (m ∷ []), h.write_sem);
      },
    )

-- The queue with the slot of the first message emptied.
abbrev emptied : Queue → ℕ → List ℕ → Queue
emptied q slot m = record q {
  index = shift q.index;
  slots = set q.slots slot (record { len = 0; content = m });
  write_sem = q.write_sem + 1;
}

read_locked-emptied :
    (q : Queue) (slot len : ℕ) (rest : List ℤ) (m : List ℕ)
    → q.index ≡ pos slot ∷ rest
    → get_elem? q.slots slot ≡ some (record { len = length m; content = m })
    → read_locked q len ≡ some (emptied q slot m, take len m)
unfolding read_locked
read_locked-emptied q slot len rest m index at = rw (index, at, take-min len m)

shift-used :
    (u k : ℕ) (us : List ℕ)
    → shift (map pos (u ∷ us) ++ replicate k (negsuc 0))
      ≡ map pos us ++ replicate (suc k) (negsuc 0)
unfolding shift
shift-used u k us =
    append_assoc (map pos us) (replicate k (negsuc 0)) (negsuc 0 ∷ [])
    ∙ ap (λ l. map pos us ++ l) (replicate-last k)

-- A process that is past its semaphore reads as much of the first message as its buffer takes, and the
-- queue holds the others.
pub read_locked-Holds :
    (q : Queue) (m : List ℕ) (messages : List (List ℕ)) (readers writers len : ℕ)
    → Holds q (m ∷ messages) (suc readers) writers
    → (q' : Queue) × (read_locked q len ≡ some (q', take len m)) × Holds q' messages readers writers
read_locked-Holds q m messages readers writers len h =
    read_used h.used h.index h.places h.stored h.different h.free
  where
    read_used :
        (used : List ℕ)
        → q.index ≡ map pos used ++ replicate h.unused (negsuc 0)
        → length used + h.unused ≡ entries_per_queue
        → Stored q.slots used (m ∷ messages)
        → AreDifferent used
        → free_slots q.slots + length used ≡ entries_per_queue
        → (q' : Queue) × (read_locked q len ≡ some (q', take len m))
          × Holds q' messages readers writers
    read_used [] index places stored different free = absurd stored
    read_used (u ∷ us) index places stored different free =
        let entry : Entry = record { len = 0; content = m } in
        (
          emptied q u m,
          read_locked-emptied q u len (map pos us ++ replicate h.unused (negsuc 0)) m index
              stored.0,
          record {
            used = us;
            unused = suc h.unused;
            index = ap shift index ∙ shift-used u h.unused us;
            places = omega (arith, places);
            stored = Stored-set q.slots us messages u entry stored.2 different.0;
            different = different.1;
            free = omega (
              arith,
              free,
              free_slots-empty q.slots u (record { len = length m; content = m }) entry stored.0
                  stored.1 refl,
            );
            slots = length-set q.slots u entry ∙ h.slots;
            read_wait = omega (arith, h.read_wait);
            write_sem = omega (arith, h.write_sem);
          },
        )
