-- ===== src/Airline/Broadcast.antt =====
-- app/airline.c, `broadcast`: which threads get a message.
use tp1_so_2c.Base.{
  ◌<◌, ◌≡◌, refl, ap, Bool, true, false, ◌⊎◌, inl, inr, ap₂, List, [], ◌∷◌, ◌++◌, none, some, arith,
  if◌then◌else◌, ◌>>=◌, length,
}
use tp1_so_2c.Comm.{Message}
use tp1_so_2c.MessageQueue.{MessageQueue, returns, waits, push}
use tp1_so_2c.MessageQueue.Ring.{IsValid, contents, push-IsValid, count, length-contents, slots-set}
use tp1_so_2c.Airline.{Thread, deliver, broadcast}

abbrev pub AllValid : List Thread → Type 0
AllValid [] = Unit
AllValid (t ∷ ts) = IsValid t.queue × AllValid ts

-- Every thread that is not done has room in its queue.
abbrev pub AllHaveRoom : List Thread → Type 0
AllHaveRoom [] = Unit
AllHaveRoom (t ∷ ts) = ((t.done ≡ true) ⊎ (length (contents t.queue) < 9)) × AllHaveRoom ts

-- Whether a thread is done, and what is in its queue.
abbrev pub views : List Thread → List (Bool × List Message)
views [] = []
views (t ∷ ts) = (t.done, contents t.queue) ∷ views ts

-- The threads that are not done get the message behind the others, the rest get nothing.
abbrev pub send_all : Message → List (Bool × List Message) → List (Bool × List Message)
send_all msg [] = []
send_all msg ((done, ms) ∷ vs) = (done, if done then ms else ms ++ msg ∷ []) ∷ send_all msg vs

pub push_room :
    {q : MessageQueue} (m : Message)
    → IsValid q
    → length (contents q) < 9
    → ((push q m).1 ≡ returns true) × (contents (push q m).0 ≡ contents q ++ m ∷ [])
unfolding push
push_room {q} m v room =
    ground (arith, length-contents q, slots-set q.messages m (count q) q.first q.tail)

-- What becomes of a thread.
abbrev pub reached : Message → Thread → Thread
reached msg t = if t.done then t else record t { queue = (push t.queue msg).0 }

abbrev pub reach_all : Message → List Thread → List Thread
reach_all msg [] = []
reach_all msg (t ∷ ts) = reached msg t ∷ reach_all msg ts

pub deliver_lem :
    (msg : Message) (t : Thread)
    → (push t.queue msg).1 ≡ returns true
    → deliver msg t ≡ some (record t { queue = (push t.queue msg).0 })
deliver_lem msg t pushed =
    ap (λ o. elim o [ returns _ ↦ some (record t { queue = (push t.queue msg).0 }) | waits ↦ none ])
      pushed

pub reach_one :
    (msg : Message) (q : MessageQueue) (done : Bool)
    → IsValid q
    → (done ≡ true) ⊎ (length (contents q) < 9)
    → let t : Thread = record { queue = q; done = done } in
      ((if done then some t else deliver msg t) ≡ some (reached msg t))
      × IsValid (reached msg t).queue
      × ((reached msg t).done ≡ done)
      × (contents (reached msg t).queue ≡ (if done then contents q else contents q ++ msg ∷ []))
reach_one msg q true v room = (refl, v, refl, refl)
reach_one msg q false v (inl never) = ground arith
reach_one msg q false v (inr room) =
    let (pushed, held) = push_room msg v room in
    (deliver_lem msg (record { queue = q; done = false }) pushed, push-IsValid msg v, refl, held)

pub reach_all_lem :
    (msg : Message) (ts : List Thread)
    → AllValid ts
    → AllHaveRoom ts
    → (broadcast ts msg ≡ some (reach_all msg ts))
      × AllValid (reach_all msg ts)
      × (views (reach_all msg ts) ≡ send_all msg (views ts))
unfolding broadcast
reach_all_lem msg [] vs rooms = (refl, tt, refl)
reach_all_lem msg (t ∷ ts) (v, vs) (room, rooms) =
    let (gone, valid, same, held) = reach_one msg t.queue t.done v room in
    let (gone', valid', held') = reach_all_lem msg ts vs rooms in
    (
      ap₂ (λ a b. a >>= λ t'. b >>= λ ts'. some (t' ∷ ts')) gone gone',
      (valid, valid'),
      ap₂ (λ x xs. x ∷ xs) (ap₂ (λ d ms. (d, ms)) same held) held',
    )

-- When every queue is valid and that of each thread that is not done has room, `broadcast` ends and
-- leaves valid queues: each thread that is not done has got the message behind what was in its queue,
-- and the others have what they had.
pub broadcast_lem :
    (msg : Message) (ts : List Thread)
    → AllValid ts
    → AllHaveRoom ts
    → (ts' : List Thread) × (broadcast ts msg ≡ some ts')
      × AllValid ts'
      × (views ts' ≡ send_all msg (views ts))
broadcast_lem msg ts vs rooms =
    let (gone, valid, held) = reach_all_lem msg ts vs rooms in (reach_all msg ts, gone, valid, held)
