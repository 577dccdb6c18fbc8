-- ===== src/Plane.antt =====
-- app/plane.c and communication/plane.c: the thread of a plane. Between two reads of its queue the
-- thread runs by itself, so each such stretch is one function here: from the message that is read to
-- the next place where the thread waits.
pub mod Flight
pub mod Unloading
use tp1_so_2c.Base.{
  ℕ, ◌+◌, ◌-◌, Bool, true, false, List, [], ◌∷◌, ◌++◌, Option, none, some, ◌==◌, leb, length, min,
  take, if◌then◌else◌,
}
use tp1_so_2c.Base.Int.{ℤ, pos, ltb_ℤ}
use tp1_so_2c.Comm.{MessageType, Message, Payload, CheckDestinationsMessage, StockStateMessage}
use tp1_so_2c.Models.{Stock, Plane}
use tp1_so_2c.Marshall.{marshall_change_stock, marshall_check_destinations}

-- Where the thread waits: for the step, for the answer to its unloading, for the second phase, for the
-- destinations. `returned` is the end of `run_plane`, `exited` is `pthread_exit`, and `fault` a write
-- outside of an array or a read of a value that was never set.
pub data Place : Type 0 where
  at_step at_stock at_continue at_destinations returned exited fault : Place

-- `struct PlaneThread`, less the queue, the connection and the thread.
pub record PlaneThread : Type 0 where
  pub plane : Plane
  pub airline : ℕ
  pub done : Bool
  pub place : Place

-- What the thread does that others see: its requests to the map, and `app_airline_plane_ready`.
pub data Act : Type 0 where
  unload : StockStateMessage → Act
  check : CheckDestinationsMessage → Act
  ready : Act

-- Before an action under `SafeAction` the thread leaves if an end message is first in its queue. What
-- `message_queue_peek` sees at each of these places is a parameter.
pub record Peeks : Type 0 where
  pub end_before_unload : Bool
  pub end_in_unload : Bool
  pub end_before_ready : Bool
  pub end_before_continue : Bool
  pub end_before_check : Bool
  pub end_before_second_ready : Bool

abbrev pub is_type : MessageType → MessageType → Bool
is_type MessageType.step MessageType.step = true
is_type MessageType.continue MessageType.continue = true
is_type MessageType.stock MessageType.stock = true
is_type MessageType.destinations MessageType.destinations = true
is_type _ _ = false

abbrev pub stop_at : Place → PlaneThread → PlaneThread × List Act
stop_at p t = (record t { place = p }, [])

abbrev pub acting : Act → PlaneThread × List Act → PlaneThread × List Act
acting a r = (r.0, a ∷ r.1)

-- From the first `app_airline_plane_ready` to the wait for the second phase.
unfoldable pub end_phase1 : Peeks → PlaneThread → PlaneThread × List Act
end_phase1 peeks t =
    if peeks.end_before_ready
    then stop_at exited t
    else acting ready (
        if t.done
        then stop_at returned t
        else if peeks.end_before_continue
        then stop_at exited t
        else stop_at at_continue t)

-- From the second `app_airline_plane_ready` to the test of the loop.
unfoldable pub end_phase2 : Peeks → PlaneThread → PlaneThread × List Act
end_phase2 peeks t =
    if peeks.end_before_second_ready
    then stop_at exited t
    else acting ready (if t.done then stop_at returned t else stop_at at_step t)

-- The request of `comm_unload_stock`.
unfoldable pub send_unload : PlaneThread → PlaneThread × List Act
send_unload t = elim (marshall_change_stock t.airline t.plane.id t.plane.city_id t.plane.stocks) [
  | none ↦ stop_at fault t
  | some msg ↦ acting (unload msg) (stop_at at_stock t)
]

-- `comm_step` has read `msg`.
unfoldable pub on_step : Peeks → PlaneThread → Message → PlaneThread × List Act
unfolding end_phase1 send_unload
on_step peeks t msg =
    if is_type msg.type MessageType.step
    then if t.plane.distance == 0
      then if peeks.end_before_unload
        then stop_at exited t
        else if peeks.end_in_unload
        then stop_at exited t
        else send_unload t
      else end_phase1 peeks t
    else (record t { done = true; place = returned }, [])

-- How the loop of `unload_stock` ends: with the new stocks and whether nothing is left in them, with
-- the return -1 at a negative amount, or with the read of an amount that the answer does not have.
pub data Amounts : Type 0 where
  assigned : List Stock → (empty : Bool) → Amounts
  negative : Amounts
  unset : Amounts

abbrev pub assign_more : Stock → ℤ → Amounts → Amounts
assign_more s d (assigned ss empty) =
    assigned (record s { amount = d } ∷ ss) (if ltb_ℤ (pos 0) d then false else empty)
assign_more s d negative = negative
assign_more s d unset = unset

unfoldable pub set_amounts : List Stock → List ℤ → Amounts
set_amounts [] deltas = assigned [] true
set_amounts (s ∷ ss) [] = unset
set_amounts (s ∷ ss) (d ∷ ds) =
    let rest = set_amounts ss ds in if ltb_ℤ d (pos 0) then negative else assign_more s d rest

-- `unload_stock` when the amounts of the answer are copied.
unfoldable pub after_amounts : Peeks → PlaneThread → Amounts → PlaneThread × List Act
unfolding end_phase1
after_amounts peeks t (assigned ss empty) =
    end_phase1 peeks
      (record t { plane = record t.plane { stocks = ss }; done = if empty then true else t.done })
after_amounts peeks t negative = stop_at exited t
after_amounts peeks t unset = stop_at fault t

-- The `memcpy` of `comm_unload_stock` into an array of `len` amounts: `none` is a write past its end,
-- or a payload of another message.
abbrev pub copy_amounts : ℕ → Payload → Option (List ℤ)
copy_amounts len (Payload.stock count delta) =
    if leb count len then some (take count delta) else none
copy_amounts len _ = none

-- `comm_unload_stock` has read `msg`.
unfoldable pub on_stock : Peeks → PlaneThread → Message → PlaneThread × List Act
unfolding set_amounts after_amounts
on_stock peeks t msg =
    if is_type msg.type MessageType.stock
    then elim (copy_amounts (length t.plane.stocks) msg.payload) [
      | none ↦ stop_at fault t
      | some deltas ↦ after_amounts peeks t (set_amounts t.plane.stocks deltas)
    ]
    else stop_at exited t

abbrev pub max_choices : ℕ
max_choices = 5

-- The request of `comm_check_destinations`.
unfoldable pub send_check : PlaneThread → PlaneThread × List Act
send_check t =
    elim (marshall_check_destinations t.airline t.plane.id t.plane.city_id t.plane.stocks
      max_choices) [
        | none ↦ stop_at fault t
        | some msg ↦ acting (check msg) (stop_at at_destinations t)
      ]

-- `comm_continue` has read `msg`.
unfoldable pub on_continue : Peeks → PlaneThread → Message → PlaneThread × List Act
unfolding send_check end_phase2
on_continue peeks t msg =
    if is_type msg.type MessageType.continue
    then if t.plane.distance == 0
      then if peeks.end_before_check then stop_at exited t else send_check t
      else end_phase2 peeks
          (record t { plane = record t.plane { distance = t.plane.distance - 1 } })
    else stop_at exited t

-- The two `memcpy` of `comm_check_destinations`: at most five cities and their distances. `none` is a
-- payload of another message.
abbrev pub copy_destinations : Payload → Option (List ℕ × List ℕ)
copy_destinations (Payload.destinations count cities distances) =
    some (take (min max_choices count) cities, take (min max_choices count) distances)
copy_destinations _ = none

-- The plane goes to the first of the destinations, or is done if there is none.
unfoldable pub choose : PlaneThread → List ℕ → List ℕ → PlaneThread
choose t (city ∷ cities) (distance ∷ distances) = record t {
  plane = record t.plane { city_id = pos city; distance = distance };
}
choose t _ _ = record t { done = true }

-- `comm_check_destinations` has read `msg`.
unfoldable pub on_destinations : Peeks → PlaneThread → Message → PlaneThread × List Act
unfolding choose end_phase2
on_destinations peeks t msg =
    if is_type msg.type MessageType.destinations
    then elim (copy_destinations msg.payload) [
      | none ↦ stop_at fault t
      | some (cities, distances) ↦ end_phase2 peeks (choose t cities distances)
    ]
    else stop_at exited t

-- The thread reads a message from its queue.
unfoldable pub on_message : Place → Peeks → PlaneThread → Message → PlaneThread × List Act
unfolding on_step on_stock on_continue on_destinations
on_message at_step peeks t msg = on_step peeks t msg
on_message at_stock peeks t msg = on_stock peeks t msg
on_message at_continue peeks t msg = on_continue peeks t msg
on_message at_destinations peeks t msg = on_destinations peeks t msg
on_message returned peeks t msg = (t, [])
on_message exited peeks t msg = (t, [])
on_message fault peeks t msg = (t, [])

-- The thread reads some messages, one after the other.
unfoldable pub read_all : PlaneThread → List (Peeks × Message) → PlaneThread × List Act
unfolding on_message
read_all t [] = (t, [])
read_all t ((peeks, msg) ∷ msgs) =
    let (t', acts) = on_message t.place peeks t msg in
    let rest = read_all t' msgs in (rest.0, acts ++ rest.1)
