-- ===== src/Shmem/Slots.antt =====
-- ipc/shmem.c: the slots and the index hold messages in the order of their writes.
use tp1_so_2c.Base.{
  ℕ, zero, suc, ◌+◌, ◌<◌, ◌≡◌, ◌≢◌, refl, ap, sym, ◌∙◌, Bool-cases, inl, inr, List, [], ◌∷◌, ◌++◌,
  some, some_inj, arith, ◌==◌, ==_iff, length, get_elem?, get_elem?-set_ne, set, replicate, map,
  if◌then◌else◌,
}
use tp1_so_2c.Base.Int.{pos, negsuc}
use tp1_so_2c.Shmem.{Entry, Queue, init_queue, entries_per_queue, find_slot, find_unused}

abbrev pub free_slots : List Entry → ℕ
free_slots [] = 0
free_slots (e ∷ es) = if e.len == 0 then suc (free_slots es) else free_slots es

-- The slots of the given numbers hold the messages, none of which is empty.
abbrev pub Stored : List Entry → List ℕ → List (List ℕ) → Type 0
Stored slots [] [] = Unit
Stored slots (u ∷ us) (m ∷ ms) =
    (get_elem? slots u ≡ some (record { len = length m; content = m }))
    × (0 < length m)
    × Stored slots us ms
Stored slots _ _ = ⊥

abbrev pub Lacks : ℕ → List ℕ → Type 0
Lacks u [] = Unit
Lacks u (v ∷ vs) = (u ≢ v) × Lacks u vs

abbrev pub AreDifferent : List ℕ → Type 0
AreDifferent [] = Unit
AreDifferent (u ∷ us) = Lacks u us × AreDifferent us

-- The queue holds `messages`, while `readers` and `writers` processes are past their semaphore and
-- have not yet read or written.
pub record Holds (q : Queue) (messages : List (List ℕ)) (readers writers : ℕ) : Type 0 where
  pub used : List ℕ
  pub unused : ℕ
  pub index : q.index ≡ map pos used ++ replicate unused (negsuc 0)
  pub places : length used + unused ≡ entries_per_queue
  pub stored : Stored q.slots used messages
  pub different : AreDifferent used
  pub free : free_slots q.slots + length used ≡ entries_per_queue
  pub slots : length q.slots ≡ entries_per_queue
  pub read_wait : q.read_wait + readers ≡ length messages
  pub write_sem : q.write_sem + writers + length messages ≡ entries_per_queue

pub init_queue-Holds : Holds init_queue [] 0 0
unfolding init_queue
init_queue-Holds = record {
  used = [];
  unused = 16;
  index = refl;
  places = refl;
  stored = tt;
  different = tt;
  free = refl;
  slots = refl;
  read_wait = refl;
  write_sem = refl;
}

pub find_slot_lem :
    (es : List Entry) (i : ℕ)
    → 0 < free_slots es
    → (j : ℕ) × (e : Entry) × (find_slot es i ≡ i + j) × (get_elem? es j ≡ some e) × (e.len ≡ 0)
unfolding find_slot
find_slot_lem [] i h = absurd (omega arith)
find_slot_lem (e ∷ es) i h = elim (Bool-cases (e.len == 0)) [
  | inl z ↦ (0, e, rw z (omega arith), refl, (==_iff e.len 0).0 z)
  | inr n ↦
      let some_free : 0 < free_slots es = ground arith in
      let (j, f, found, at, zero_len) = find_slot_lem es (i + 1) some_free in
      (suc j, f, rw n (omega (arith, found)), at, zero_len)
]

pub find_unused_lem :
    (us : List ℕ) (f i : ℕ)
    → find_unused (map pos us ++ replicate (suc f) (negsuc 0)) i ≡ i + length us
unfolding find_unused
find_unused_lem [] f i = omega arith
find_unused_lem (u ∷ us) f i = omega (arith, find_unused_lem us f (i + 1))

pub set_unused :
    (us : List ℕ) (f j : ℕ)
    → set (map pos us ++ replicate (suc f) (negsuc 0)) (length us) (pos j)
      ≡ map pos (us ++ j ∷ []) ++ replicate f (negsuc 0)
set_unused [] f j = refl
set_unused (u ∷ us) f j = ap (λ l. pos u ∷ l) (set_unused us f j)

pub free_slots-fill :
    (es : List Entry) (j : ℕ) (e new : Entry)
    → get_elem? es j ≡ some e
    → e.len ≡ 0
    → 0 < new.len
    → free_slots (set es j new) + 1 ≡ free_slots es
free_slots-fill [] j e new at z p = cc
free_slots-fill (x ∷ es) zero e new at z p =
    let same : x ≡ e = some_inj at in
    let zx : x.len ≡ 0 = ap (λ (y : Entry). y.len) same ∙ z in ground arith
free_slots-fill (x ∷ es) (suc j) e new at z p = ground (arith, free_slots-fill es j e new at z p)

pub free_slots-empty :
    (es : List Entry) (j : ℕ) (e new : Entry)
    → get_elem? es j ≡ some e
    → 0 < e.len
    → new.len ≡ 0
    → free_slots (set es j new) ≡ suc (free_slots es)
free_slots-empty [] j e new at p z = cc
free_slots-empty (x ∷ es) zero e new at p z =
    let same : x ≡ e = some_inj at in
    let px : x.len ≡ e.len = ap (λ (y : Entry). y.len) same in ground arith
free_slots-empty (x ∷ es) (suc j) e new at p z = ground (arith, free_slots-empty es j e new at p z)

pub Stored-Lacks :
    (slots : List Entry) (us : List ℕ) (ms : List (List ℕ)) (j : ℕ) (e : Entry)
    → Stored slots us ms
    → get_elem? slots j ≡ some e
    → e.len ≡ 0
    → Lacks j us
Stored-Lacks slots [] [] j e s at z = tt
Stored-Lacks slots [] (m ∷ ms) j e s at z = absurd s
Stored-Lacks slots (u ∷ us) [] j e s at z = absurd s
Stored-Lacks slots (u ∷ us) (m ∷ ms) j e s at z = (
  λ same.
      let there = some_inj (sym at ∙ ap (get_elem? slots) same ∙ s.0) in
      let none_left : length m ≡ 0 = sym (ap (λ (y : Entry). y.len) there) ∙ z in
      omega (arith, s.1, none_left),
  Stored-Lacks slots us ms j e s.2 at z,
)

pub Stored-set :
    (slots : List Entry) (us : List ℕ) (ms : List (List ℕ)) (j : ℕ) (new : Entry)
    → Stored slots us ms
    → Lacks j us
    → Stored (set slots j new) us ms
Stored-set slots [] [] j new s l = tt
Stored-set slots [] (m ∷ ms) j new s l = absurd s
Stored-set slots (u ∷ us) [] j new s l = absurd s
Stored-set slots (u ∷ us) (m ∷ ms) j new s l =
    (get_elem?-set_ne slots new l.0 ∙ s.0, s.1, Stored-set slots us ms j new s.2 l.1)

pub Stored-add :
    (slots : List Entry) (us : List ℕ) (ms : List (List ℕ)) (j : ℕ) (m : List ℕ)
    → Stored slots us ms
    → get_elem? slots j ≡ some (record { len = length m; content = m })
    → 0 < length m
    → Stored slots (us ++ j ∷ []) (ms ++ m ∷ [])
Stored-add slots [] [] j m s at p = (at, p, tt)
Stored-add slots [] (n ∷ ms) j m s at p = absurd s
Stored-add slots (u ∷ us) [] j m s at p = absurd s
Stored-add slots (u ∷ us) (n ∷ ms) j m s at p = (s.0, s.1, Stored-add slots us ms j m s.2 at p)

pub length-Stored :
    (slots : List Entry) (us : List ℕ) (ms : List (List ℕ))
    → Stored slots us ms
    → length us ≡ length ms
length-Stored slots [] [] s = refl
length-Stored slots [] (m ∷ ms) s = absurd s
length-Stored slots (u ∷ us) [] s = absurd s
length-Stored slots (u ∷ us) (m ∷ ms) s = ap suc (length-Stored slots us ms s.2)

Lacks-add : (u j : ℕ) (us : List ℕ) → Lacks u us → u ≢ j → Lacks u (us ++ j ∷ [])
Lacks-add u j [] l n = (n, tt)
Lacks-add u j (v ∷ us) l n = (l.0, Lacks-add u j us l.1 n)

pub AreDifferent-add :
    (j : ℕ) (us : List ℕ) → AreDifferent us → Lacks j us → AreDifferent (us ++ j ∷ [])
AreDifferent-add j [] d l = (tt, tt)
AreDifferent-add j (u ∷ us) d l =
    (Lacks-add u j us d.0 (λ e. l.0 (sym e)), AreDifferent-add j us d.1 l.1)

pub replicate-last :
    (n : ℕ) → replicate n (negsuc 0) ++ negsuc 0 ∷ [] ≡ replicate (suc n) (negsuc 0)
replicate-last zero = refl
replicate-last (suc n) = ap (λ l. negsuc 0 ∷ l) (replicate-last n)
