-- ===== src/Airline.antt =====
-- app/airline.c and communication/airline.c: the process of an airline, which passes the messages of
-- the map on to its planes and tells the map when all of them are ready.
pub mod Stage
pub mod Broadcast
pub mod System
pub mod Fits
pub mod Moves
pub mod Sends
pub mod Counts
pub mod Delivery
pub mod Kept
pub mod Rests
pub mod Progress
pub mod Ending
use tp1_so_2c.Base.{
  ℕ, zero, suc, ◌+◌, Bool, true, false, List, [], ◌∷◌, Option, none, some, ◌==◌, length, get_elem?,
  set, if◌then◌else◌, ◌>>=◌,
}
use tp1_so_2c.Base.Int.{ℤ, pos, ◌-ℤ◌, is_zero_ℤ}
use tp1_so_2c.Comm.{
  MessageType, Message, Payload, AirlineStatus, StockStateMessage, DestinationsMessage, signal,
}
use tp1_so_2c.Marshall.{marshall_send_airline_status}
use tp1_so_2c.MessageQueue.{MessageQueue, returns, waits, push}

-- What this process keeps of `struct PlaneThread`. The thread itself sets `done`.
pub record Thread : Type 0 where
  pub queue : MessageQueue
  pub done : Bool

-- The variables of the file. The threads are those of `bootstrap_planes`, one for each plane, so that
-- `numberOfPlanes` is their number. `exit_state` is never set.
pub record Airline : Type 0 where
  pub id : ℕ
  pub threads : List Thread
  pub planes_left_in_stage : ℤ
  pub stage : ℕ
  pub exit_state : ℕ

-- What is written to the map: `comm_airline_ready` or `comm_airline_status`.
pub data Sent : Type 0 where
  airline_done : Sent
  airline_status : AirlineStatus → Sent

-- `union MapMessage`, by its type. `other` is any type that `listen` returns on.
pub data MapMessage : Type 0 where
  step continue other : MapMessage
  destinations : DestinationsMessage → MapMessage
  unload_stock : StockStateMessage → MapMessage

-- The loops that count the planes that are not done.
unfoldable pub count_flying : List Thread → ℕ
count_flying [] = 0
count_flying (t ∷ ts) = let rest = count_flying ts in if t.done then rest else suc rest

-- `send_ready_message`
unfoldable pub send_ready_message : Airline → Sent
send_ready_message a =
    if a.stage == 1
    then airline_status
        (marshall_send_airline_status (count_flying a.threads) (length a.threads) a.id)
    else airline_done

-- A message is pushed to the queue of a thread. `none`: the process waits at a full queue.
abbrev pub deliver : Message → Thread → Option Thread
deliver msg t = elim (push t.queue msg).1 [
  | returns _ ↦ some (record t { queue = (push t.queue msg).0 })
  | waits ↦ none
]

-- `broadcast`. `none`: the process waits at a full queue, in `start_phase` with the lock held.
unfoldable pub broadcast : List Thread → Message → Option (List Thread)
broadcast [] msg = some []
broadcast (t ∷ ts) msg = do
  t' ← if t.done then some t else deliver msg t
  ts' ← broadcast ts msg
  some (t' ∷ ts')

-- `start_phase`
unfoldable pub start_phase : Airline → Message → Option (Airline × List Sent)
start_phase a msg =
    let a' = record a { planes_left_in_stage = pos (count_flying a.threads) } in
    if is_zero_ℤ a'.planes_left_in_stage
    then some (a', send_ready_message a' ∷ [])
    else (broadcast a.threads msg >>= λ ts. some (record a' { threads = ts }, []))

-- `app_airline_plane_ready`, which the threads of the planes call.
unfoldable pub plane_ready : Airline → Airline × List Sent
plane_ready a =
    let a' = record a { planes_left_in_stage = a.planes_left_in_stage -ℤ pos 1 } in
    if is_zero_ℤ a'.planes_left_in_stage
    then if a.exit_state == 1 then (a', []) else (a', send_ready_message a' ∷ [])
    else (a', [])

-- The message goes to the thread at an index. `none`: there is no such thread, or the process waits.
unfoldable pub redirect : Airline → ℕ → Message → Option Airline
redirect a id msg = do
  t ← get_elem? a.threads id
  t' ← deliver msg t
  some (record a { threads = set a.threads id t' })

-- The message that `redirect_stock_message` makes.
abbrev pub stock_message : StockStateMessage → Message
stock_message m = record {
  type = MessageType.stock;
  payload = Payload.stock m.stocks.count m.stocks.quantities;
}

-- `redirect_stock_message`
unfoldable pub redirect_stock_message : Airline → StockStateMessage → Option Airline
redirect_stock_message a m = redirect a m.header.id (stock_message m)

-- The message that `redirect_destinations_message` makes.
abbrev pub destinations_message : DestinationsMessage → Message
destinations_message m = record {
  type = MessageType.destinations;
  payload = Payload.destinations m.count m.destinations m.distance;
}

-- `redirect_destinations_message`
unfoldable pub redirect_destinations_message : Airline → DestinationsMessage → Option Airline
redirect_destinations_message a m = redirect a m.plane_id (destinations_message m)

-- The round of the loop of `listen` for a message: the process, what it sends, and whether the loop
-- goes on. `none`: it waits, or goes through a null pointer.
unfoldable pub on_map_message : Airline → MapMessage → Option (Airline × List Sent × Bool)
on_map_message a step =
    start_phase (record a { stage = 0 }) (signal MessageType.step) >>= λ r. some (r.0, r.1, true)
on_map_message a continue =
    start_phase (record a { stage = 1 }) (signal MessageType.continue) >>= λ r.
    some (r.0, r.1, true)
on_map_message a (destinations m) = redirect_destinations_message a m >>= λ a'. some (a', [], true)
on_map_message a (unload_stock m) = redirect_stock_message a m >>= λ a'. some (a', [], true)
on_map_message a other = some (a, [], false)
