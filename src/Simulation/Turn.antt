-- ===== src/Simulation/Turn.antt =====
-- app/map.c, `runMap`: the turns of the simulation, as the process of the map sees them. What the
-- airlines send is a list of messages in the order in which `ipc_read` returns them; what the process
-- writes is a list too. The semaphore of the display only delays a turn.
pub mod Phases
pub mod Run
pub mod Shown
pub mod Tallies
pub mod Told
pub mod Sound
pub mod Safe
pub mod Finish
use tp1_so_2c.Base.{
  ℕ, zero, suc, ◌+◌, Bool, true, false, not, ◌&&◌, List, [], ◌∷◌, ◌++◌, Option, none, some, length,
  ltb, ◌==◌, if◌then◌else◌, ◌>>=◌, ◌>>◌,
}
use tp1_so_2c.Comm.{
  MessageType, AirlineStatus, Message, Payload, StockStateMessage, CheckDestinationsMessage,
  DestinationsMessage,
}
use tp1_so_2c.Models.{Map, Airline}
use tp1_so_2c.Marshall.{
  marshall_change_stock, marshall_send_map_status, marshall_send_airline_status,
}
use tp1_so_2c.Simulation.Receive.{init_plane}
use tp1_so_2c.Simulation.Unload.{update_map}
use tp1_so_2c.Simulation.Status.{SimState, continue_sim, end_sim, end_simulation, get_map_status}
use tp1_so_2c.Simulation.Offer.{QSort, city_info_comparator, app_give_destinations}

-- `union PlaneMessage` (communication/map.h) by the type that `runMap` tests.
pub data PlaneMessage : Type 0 where
  airline_done : PlaneMessage
  unload_stock : StockStateMessage → PlaneMessage
  check_destinations : CheckDestinationsMessage → PlaneMessage
  airline_status : AirlineStatus → PlaneMessage
  invalid : MessageType → PlaneMessage

-- What the process writes: to the airline of an index, or to the queue of the display.
pub data Sent : Type 0 where
  step continue : (airline : ℕ) → Sent
  stock : (airline : ℕ) → StockStateMessage → Sent
  destinations : (airline : ℕ) → DestinationsMessage → Sent
  display : Message → Sent

-- How a phase ends: with the messages not yet read, waiting for a message, or at a null pointer or a
-- read or write outside of an array.
pub data Phase : Type 0 where
  finished : Map → List PlaneMessage → List Sent → Phase
  blocked : Map → List Sent → Phase
  fault : Phase

abbrev pub after_sending : List Sent → Phase → Phase
after_sending s (finished m inbox sent) = finished m inbox (s ++ sent)
after_sending s (blocked m sent) = blocked m (s ++ sent)
after_sending s fault = fault

-- `getFromVector(conns, airlineId)` gives a connection.
abbrev connected : ℕ → ℕ → Option (Unit {0})
connected airlines id = if ltb id airlines then some tt else none

-- `MessageTypeUnloadStock` in the first phase, with `comm_unloaded_stock`.
pub on_unload_stock : ℕ → Map → StockStateMessage → Option (Map × List Sent)
on_unload_stock airlines m msg = do
  (plane, m') ← init_plane msg.stocks msg.header m
  (m'', plane') ← update_map m' plane
  connected airlines msg.header.airline
  reply ← marshall_change_stock msg.header.airline plane'.id plane'.city_id plane'.stocks
  some (m'', stock msg.header.airline reply ∷ [])

-- `MessageTypeCheckDestinations` in the second phase.
pub on_check_destinations :
    QSort city_info_comparator → ℕ → Map → CheckDestinationsMessage → Option (Map × List Sent)
on_check_destinations qsort airlines m msg = do
  (plane, m') ← init_plane msg.stocks msg.header m
  connected airlines msg.header.airline
  reply ← app_give_destinations qsort m' plane
  some (m', destinations msg.header.airline reply ∷ [])

-- The first loop: until `i` airlines of all are done.
pub phase1 : ℕ → ℕ → Map → List PlaneMessage → Phase
unfolding on_unload_stock
phase1 airlines i m [] = if i == airlines then finished m [] [] else blocked m []
phase1 airlines i m (airline_done ∷ ms) =
    let rest = phase1 airlines (i + 1) m ms in
    if i == airlines then finished m (airline_done ∷ ms) [] else rest
phase1 airlines i m (unload_stock msg ∷ ms) =
    let rest : Phase = elim (on_unload_stock airlines m msg) [
      | none ↦ fault
      | some (m', s) ↦ after_sending s (phase1 airlines i m' ms)
    ] in
    if i == airlines then finished m (unload_stock msg ∷ ms) [] else rest
phase1 airlines i m (msg ∷ ms) =
    let rest = phase1 airlines i m ms in if i == airlines then finished m (msg ∷ ms) [] else rest

-- `comm_send_airline_status`
abbrev pub comm_send_airline_status : AirlineStatus → Sent
comm_send_airline_status s = display (record {
  type = MessageType.airline_status;
  payload =
      Payload.airline_status (marshall_send_airline_status s.planes_flying s.total_planes s.id);
})

-- The second loop: until `i` airlines of all have sent their status.
pub phase2 : QSort city_info_comparator → ℕ → ℕ → Map → List PlaneMessage → Phase
unfolding on_check_destinations
phase2 qsort airlines i m [] = if i == airlines then finished m [] [] else blocked m []
phase2 qsort airlines i m (airline_status s ∷ ms) =
    let rest =
      after_sending (comm_send_airline_status s ∷ []) (phase2 qsort airlines (i + 1) m ms) in
    if i == airlines then finished m (airline_status s ∷ ms) [] else rest
phase2 qsort airlines i m (check_destinations msg ∷ ms) =
    let rest : Phase = elim (on_check_destinations qsort airlines m msg) [
      | none ↦ fault
      | some (m', s) ↦ after_sending s (phase2 qsort airlines i m' ms)
    ] in
    if i == airlines then finished m (check_destinations msg ∷ ms) [] else rest
phase2 qsort airlines i m (msg ∷ ms) =
    let rest = phase2 qsort airlines i m ms in
    if i == airlines then finished m (msg ∷ ms) [] else rest

-- `comm_turn_step` and `comm_turn_continue`: one message to each of the airlines from `i` on.
pub broadcast : (ℕ → Sent) → ℕ → ℕ → List Sent
broadcast send i zero = []
broadcast send i (suc n) = send i ∷ broadcast send (i + 1) n

-- `send_map_status`, less the percentage
pub send_map_status : Map → Sent
send_map_status m = display (marshall_send_map_status (get_map_status m).1 (length m.cities))

-- `send_airlines_status`
unfoldable pub send_airlines_status : List Airline → List Sent
send_airlines_status [] = []
send_airlines_status (a ∷ airlines) =
    comm_send_airline_status
      (record { id = a.id; planes_flying = length a.planes; total_planes = length a.planes })
    ∷ send_airlines_status airlines

-- What `runMap` sends to the display before its loop.
unfoldable pub start_display : List Airline → Map → List Sent
unfolding send_airlines_status send_map_status
start_display airlines m = send_airlines_status airlines ++ send_map_status m ∷ []

-- The body of the loop of `runMap` behind the second phase.
pub after_phase2 : Phase → Phase
unfolding send_map_status
after_phase2 (finished m inbox sent) = finished m inbox (sent ++ send_map_status m ∷ [])
after_phase2 (blocked m sent) = blocked m sent
after_phase2 fault = fault

-- The body of the loop behind the first phase.
pub after_phase1 : QSort city_info_comparator → ℕ → Phase → Phase
unfolding phase2 broadcast after_phase2
after_phase1 qsort airlines (finished m inbox sent) =
    after_sending (sent ++ broadcast continue 0 airlines)
      (after_phase2 (phase2 qsort airlines 0 m inbox))
after_phase1 qsort airlines (blocked m sent) = blocked m sent
after_phase1 qsort airlines fault = fault

-- The body of the loop of `runMap`.
pub do_turn : QSort city_info_comparator → ℕ → Map → List PlaneMessage → Phase
unfolding phase1 broadcast after_phase1
do_turn qsort airlines m inbox =
    after_sending (broadcast step 0 airlines)
      (after_phase1 qsort airlines (phase1 airlines 0 m inbox))
