-- ===== src/MessageQueue/Ring.antt =====
-- The messages that a queue of communication/msgqueue.c holds, oldest first, and what its
-- operations do to them.
use tp1_so_2c.Base.{
  ℕ, zero, suc, ◌+◌, ◌-◌, ◌%◌, ◌<◌, ◌≡◌, refl, ap, ap₂, ◌≢◌, List, [], ◌∷◌, ◌++◌, arith, length,
  get_or, set, length-set,
}
use tp1_so_2c.Comm.{Message}
use tp1_so_2c.MessageQueue.{MessageQueue, queue_size, no_message, create, pop, push}

-- The `n` slots from slot `i` on, going round at the end of the array.
abbrev pub slots : List Message → ℕ → ℕ → List Message
slots ms i zero = []
slots ms i (suc n) = get_or ms i no_message ∷ slots ms ((i + 1) % queue_size) n

abbrev pub count : MessageQueue → ℕ
count q = (q.tail + queue_size - q.first) % queue_size

abbrev pub contents : MessageQueue → List Message
contents q = slots q.messages q.first (count q)

pub record IsValid (q : MessageQueue) : Type 0 where
  pub storage : length q.messages ≡ queue_size
  pub first_in : q.first < queue_size
  pub tail_in : q.tail < queue_size

get_or-set :
    (ms : List Message) (i j : ℕ) (m d : Message) → i ≢ j → get_or (set ms i m) j d ≡ get_or ms j d
get_or-set [] i j m d ne = refl
get_or-set (x ∷ ms) zero zero m d ne = absurd (ne refl)
get_or-set (x ∷ ms) zero (suc j) m d ne = refl
get_or-set (x ∷ ms) (suc i) zero m d ne = refl
get_or-set (x ∷ ms) (suc i) (suc j) m d ne = get_or-set ms i j m d (λ e. ne (ap suc e))

get_or-set_self :
    (ms : List Message) (i : ℕ) (m d : Message) → i < length ms → get_or (set ms i m) i d ≡ m
get_or-set_self [] i m d h = absurd (omega arith)
get_or-set_self (x ∷ ms) zero m d h = refl
get_or-set_self (x ∷ ms) (suc i) m d h = get_or-set_self ms i m d (omega arith)

-- Writing the slot behind a stretch of fewer than ten makes the stretch one longer.
pub slots-set :
    (ms : List Message) (m : Message) (n i k : ℕ)
    → length ms ≡ queue_size
    → i < queue_size
    → n < queue_size
    → k ≡ (i + n) % queue_size
    → slots (set ms k m) i (suc n) ≡ slots ms i n ++ m ∷ []
slots-set ms m zero i k h hi hn e =
    let at : k ≡ i = omega arith in rw (at, get_or-set_self ms i m no_message (omega arith)) refl
slots-set ms m (suc n) i k h hi hn e =
    ap₂ ◌∷◌ (get_or-set ms k i m no_message (omega arith))
      (slots-set ms m n ((i + 1) % queue_size) k h (omega arith) (omega arith) (omega arith))

pub create-IsValid : IsValid create
unfolding create
create-IsValid = omega arith

pub create-contents : contents create ≡ []
unfolding create
create-contents = refl

pub pop-IsValid : {q : MessageQueue} → IsValid q → IsValid (pop q).0
unfolding pop
pop-IsValid v = ground arith

pub push-IsValid : {q : MessageQueue} (m : Message) → IsValid q → IsValid (push q m).0
unfolding push
push-IsValid {q} m v = ground (arith, length-set q.messages q.tail m)

-- The slots of a queue that is not empty begin with the slot that `pop` reads.
pub slots-head :
    (ms : List Message) (i n : ℕ)
    → n ≢ 0
    → slots ms i n ≡ get_or ms i no_message ∷ slots ms ((i + 1) % queue_size) (n - 1)
slots-head ms i zero h = absurd (h refl)
slots-head ms i (suc n) h =
    ap (λ k. get_or ms i no_message ∷ slots ms ((i + 1) % queue_size) k) (omega arith)

length-slots : (ms : List Message) (i n : ℕ) → length (slots ms i n) ≡ n
length-slots ms i zero = refl
length-slots ms i (suc n) = ap suc (length-slots ms ((i + 1) % queue_size) n)

pub length-contents : (q : MessageQueue) → length (contents q) ≡ count q
length-contents q = length-slots q.messages q.first (count q)
