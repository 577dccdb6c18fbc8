-- ===== src/Simulation/Turn/Shown.antt =====
-- app/map.c: what a turn of `runMap` shows.
use tp1_so_2c.Base.{
  ℕ, zero, suc, ◌+◌, ◌≡◌, refl, ap, ap₂, sym, ◌∙◌, subst, inl, inr, Bool, true, false, List, [],
  ◌∷◌, ◌++◌, none, some, Option-cases, length, ltb, ◌==◌, arith, if◌then◌else◌, >>=-eq-some,
  some_inj,
}
use tp1_so_2c.Comm.{
  MessageType, Message, Payload, AirlineStatus, StockStateMessage, CheckDestinationsMessage,
}
use tp1_so_2c.Models.{Map, Airline}
use tp1_so_2c.Marshall.{marshall_change_stock, marshall_send_map_status}
use tp1_so_2c.Simulation.Status.{get_map_status}
use tp1_so_2c.Simulation.Receive.{init_plane}
use tp1_so_2c.Simulation.Unload.{update_map}
use tp1_so_2c.Simulation.Offer.{QSort, city_info_comparator, app_give_destinations}
use tp1_so_2c.Simulation.Turn.{
  PlaneMessage, airline_done, unload_stock, check_destinations, airline_status, invalid, Sent, step,
  continue, stock, destinations, display, Phase, finished, blocked, fault, after_sending,
  on_unload_stock, on_check_destinations, phase1, phase2, broadcast, comm_send_airline_status,
  send_map_status, send_airlines_status, start_display, after_phase2, after_phase1, do_turn,
}

-- The messages for the display among those that the map sends.
abbrev pub displayed : List Sent → List Message
displayed [] = []
displayed (display m ∷ sent) = m ∷ displayed sent
displayed (step i ∷ sent) = displayed sent
displayed (continue i ∷ sent) = displayed sent
displayed (stock i m ∷ sent) = displayed sent
displayed (destinations i m ∷ sent) = displayed sent

abbrev pub airline_message : AirlineStatus → Message
airline_message s = record { type = MessageType.airline_status; payload = Payload.airline_status s }

abbrev pub map_message : ℕ → ℕ → Message
map_message satisfied total = record {
  type = MessageType.map_status;
  payload = Payload.map_status satisfied total;
}

-- The status of each of `n` airlines, and then that of the map.
pub data IsTurn : ℕ → List Message → Type 0 where
  map_shown : {satisfied total : ℕ} → IsTurn 0 (map_message satisfied total ∷ [])
  airline_shown :
      {n : ℕ} {s : AirlineStatus} {ms : List Message}
      → IsTurn n ms
      → IsTurn (suc n) (airline_message s ∷ ms)

-- What a phase that finishes has sent to the display so far.
abbrev pub Shows : (List Message → Type 0) → Phase → Type 0
Shows P (finished m inbox sent) = P (displayed sent)
Shows P _ = Unit

abbrev ShowsNothing : Phase → Type 0
ShowsNothing p = Shows (λ ms. ms ≡ []) p

pub displayed-append : (a b : List Sent) → displayed (a ++ b) ≡ displayed a ++ displayed b
displayed-append [] b = refl
displayed-append (display m ∷ a) b = ap (λ x. m ∷ x) (displayed-append a b)
displayed-append (step i ∷ a) b = displayed-append a b
displayed-append (continue i ∷ a) b = displayed-append a b
displayed-append (stock i m ∷ a) b = displayed-append a b
displayed-append (destinations i m ∷ a) b = displayed-append a b

-- What is sent in front of a phase and is not for the display.
Shows-after :
    (P : List Message → Type 0) (sent : List Sent) (p : Phase)
    → displayed sent ≡ []
    → Shows P p
    → Shows P (after_sending sent p)
Shows-after P sent (finished m inbox sent') e h =
    subst P (sym (displayed-append sent sent' ∙ ap (λ x. x ++ displayed sent') e)) h
Shows-after P sent (blocked m sent') e h = tt
Shows-after P sent fault e h = tt

pub unload_shows :
    (n : ℕ) (m : Map) (msg : StockStateMessage) {out : Map × List Sent}
    → on_unload_stock n m msg ≡ some out
    → displayed out.1 ≡ []
unfolding on_unload_stock
unload_shows n m msg {out} run =
    let (made, _, r2) = >>=-eq-some (init_plane msg.stocks msg.header m) _ run in
    let (moved, _, r4) = >>=-eq-some (update_map made.1 made.0) _ r2 in
    let (_, _, r5) = >>=-eq-some (if ltb msg.header.airline n then some tt else none) _ r4 in
    let (reply, _, r6) =
      >>=-eq-some
        (marshall_change_stock msg.header.airline moved.1.id moved.1.city_id moved.1.stocks) _ r5 in
    sym (ap (λ (o : Map × List Sent). displayed o.1) (some_inj r6))

pub destinations_shown :
    (qsort : QSort city_info_comparator) (n : ℕ) (m : Map) (msg : CheckDestinationsMessage)
    {out : Map × List Sent}
    → on_check_destinations qsort n m msg ≡ some out
    → displayed out.1 ≡ []
unfolding on_check_destinations
destinations_shown qsort n m msg {out} run =
    let (made, _, r2) = >>=-eq-some (init_plane msg.stocks msg.header m) _ run in
    let (_, _, r3) = >>=-eq-some (if ltb msg.header.airline n then some tt else none) _ r2 in
    let (reply, _, r4) = >>=-eq-some (app_give_destinations qsort made.1 made.0) _ r3 in
    sym (ap (λ (o : Map × List Sent). displayed o.1) (some_inj r4))

-- A message with which the phase goes on.
Shows-or :
    (P : List Message → Type 0) (b : Bool) (m : Map) (inbox : List PlaneMessage) (rest : Phase)
    → (b ≡ true → P [])
    → Shows P rest
    → Shows P (if b then finished m inbox [] else rest)
Shows-or P true m inbox rest now later = now refl
Shows-or P false m inbox rest now later = later

phase1-ShowsNothing :
    (n i : ℕ) (m : Map) (inbox : List PlaneMessage) → ShowsNothing (phase1 n i m inbox)
unfolding phase1
phase1-ShowsNothing n i m [] = at_end (i == n)
  where
    at_end : (b : Bool) → ShowsNothing (if b then finished m [] [] else blocked m [])
    at_end true = refl
    at_end false = tt
phase1-ShowsNothing n i m (airline_done ∷ inbox) =
    Shows-or (λ ms. ms ≡ []) (i == n) m _ _ (λ e. refl) (phase1-ShowsNothing n (i + 1) m inbox)
phase1-ShowsNothing n i m (unload_stock msg ∷ inbox) =
    Shows-or (λ ms. ms ≡ []) (i == n) m _ _ (λ e. refl)
      (elim (Option-cases (on_unload_stock n m msg)) [
        | inl e ↦ rw e tt
        | inr (out, e) ↦ rw e (
            Shows-after (λ ms. ms ≡ []) out.1 (phase1 n i out.0 inbox) (unload_shows n m msg e)
              (phase1-ShowsNothing n i out.0 inbox))
      ])
phase1-ShowsNothing n i m (check_destinations msg ∷ inbox) =
    Shows-or (λ ms. ms ≡ []) (i == n) m _ _ (λ e. refl) (phase1-ShowsNothing n i m inbox)
phase1-ShowsNothing n i m (airline_status s ∷ inbox) =
    Shows-or (λ ms. ms ≡ []) (i == n) m _ _ (λ e. refl) (phase1-ShowsNothing n i m inbox)
phase1-ShowsNothing n i m (invalid t ∷ inbox) =
    Shows-or (λ ms. ms ≡ []) (i == n) m _ _ (λ e. refl) (phase1-ShowsNothing n i m inbox)

pub broadcast_shows :
    (send : ℕ → Sent) (i n : ℕ)
    → ((j : ℕ) (sent : List Sent) → displayed (send j ∷ sent) ≡ displayed sent)
    → displayed (broadcast send i n) ≡ []
unfolding broadcast
broadcast_shows send i zero e = refl
broadcast_shows send i (suc n) e = e i (broadcast send (i + 1) n) ∙ broadcast_shows send (i + 1) n e

-- What is sent in the second phase when `k` airlines have still to send their status, with the status of
-- the map behind it.
abbrev MakesTurn : ℕ → List Message → Type 0
MakesTurn k ms = (satisfied total : ℕ) → IsTurn k (ms ++ map_message satisfied total ∷ [])

none_left : (n i k : ℕ) → i + k ≡ n → (i == n) ≡ true → MakesTurn k []
none_left n i k e b = subst (λ k. MakesTurn k []) (ground arith) (λ satisfied total. map_shown)

Shows-status :
    (s : AirlineStatus) (k : ℕ) (p : Phase)
    → Shows (MakesTurn k) p
    → Shows (MakesTurn (suc k)) (after_sending (comm_send_airline_status s ∷ []) p)
Shows-status s k (finished m inbox sent) h = λ satisfied total. airline_shown (h satisfied total)
Shows-status s k (blocked m sent) h = tt
Shows-status s k fault h = tt

module _ (qsort : QSort city_info_comparator) (n : ℕ) where
  phase2-MakesTurn :
      (i k : ℕ) (m : Map) (inbox : List PlaneMessage)
      → i + k ≡ n
      → Shows (MakesTurn k) (phase2 qsort n i m inbox)
  unfolding phase2
  phase2-MakesTurn i k m [] e = at_end (i == n) (none_left n i k e)
    where
      at_end :
          (b : Bool)
          → (b ≡ true → MakesTurn k [])
          → Shows (MakesTurn k) (if b then finished m [] [] else blocked m [])
      at_end true h = h refl
      at_end false h = tt
  phase2-MakesTurn i zero m (airline_status s ∷ inbox) e = all_sent _ (i == n) (ground arith)
    where
      all_sent :
          (rest : Phase) (b : Bool)
          → b ≡ true
          → Shows (MakesTurn 0) (if b then finished m (airline_status s ∷ inbox) [] else rest)
      all_sent rest true f = λ satisfied total. map_shown
      all_sent rest false f = cc
  phase2-MakesTurn i (suc k) m (airline_status s ∷ inbox) e =
      Shows-or (MakesTurn (suc k)) (i == n) m _ _ (none_left n i (suc k) e)
        (Shows-status s k _ (phase2-MakesTurn (i + 1) k m inbox (omega arith)))
  phase2-MakesTurn i k m (check_destinations msg ∷ inbox) e =
      Shows-or (MakesTurn k) (i == n) m _ _ (none_left n i k e)
        (elim (Option-cases (on_check_destinations qsort n m msg)) [
          | inl f ↦ rw f tt
          | inr (out, f) ↦ rw f (
              Shows-after (MakesTurn k) out.1 (phase2 qsort n i out.0 inbox)
                (destinations_shown qsort n m msg f) (phase2-MakesTurn i k out.0 inbox e))
        ])
  phase2-MakesTurn i k m (airline_done ∷ inbox) e =
      Shows-or (MakesTurn k) (i == n) m _ _ (none_left n i k e) (phase2-MakesTurn i k m inbox e)
  phase2-MakesTurn i k m (unload_stock msg ∷ inbox) e =
      Shows-or (MakesTurn k) (i == n) m _ _ (none_left n i k e) (phase2-MakesTurn i k m inbox e)
  phase2-MakesTurn i k m (invalid t ∷ inbox) e =
      Shows-or (MakesTurn k) (i == n) m _ _ (none_left n i k e) (phase2-MakesTurn i k m inbox e)

  behind_phase2 : (p : Phase) → Shows (MakesTurn n) p → Shows (IsTurn n) (after_phase2 p)
  unfolding after_phase2 send_map_status marshall_send_map_status
  behind_phase2 (finished m inbox sent) h =
      subst (IsTurn n) (sym (displayed-append sent (send_map_status m ∷ [])))
        (h (get_map_status m).1 (length m.cities))
  behind_phase2 (blocked m sent) h = tt
  behind_phase2 fault h = tt

  behind_phase1 : (p : Phase) → ShowsNothing p → Shows (IsTurn n) (after_phase1 qsort n p)
  unfolding after_phase1
  behind_phase1 (finished m inbox sent) h =
      Shows-after (IsTurn n) (sent ++ broadcast continue 0 n)
        (after_phase2 (phase2 qsort n 0 m inbox))
        (displayed-append sent (broadcast continue 0 n)
          ∙ ap₂ (λ a b. a ++ b) h (broadcast_shows continue 0 n (λ j sent. refl)))
        (behind_phase2 (phase2 qsort n 0 m inbox) (phase2-MakesTurn 0 n m inbox (omega arith)))
  behind_phase1 (blocked m sent) h = tt
  behind_phase1 fault h = tt

  -- A turn that finishes, whatever the airlines send, has sent to the display the status of one airline
  -- after the other, as many as there are airlines, and at last the status of the map.
  pub do_turn-IsTurn :
      (m : Map) (inbox : List PlaneMessage) → Shows (IsTurn n) (do_turn qsort n m inbox)
  unfolding do_turn
  do_turn-IsTurn m inbox =
      Shows-after (IsTurn n) (broadcast step 0 n) (after_phase1 qsort n (phase1 n 0 m inbox))
        (broadcast_shows step 0 n (λ j sent. refl))
        (behind_phase1 (phase1 n 0 m inbox) (phase1-ShowsNothing n 0 m inbox))

-- What `runMap` sends to the display before the first turn has the same form.
pub start_display-IsTurn :
    (airlines : List Airline) (m : Map)
    → IsTurn (length airlines) (displayed (start_display airlines m))
unfolding start_display send_airlines_status send_map_status marshall_send_map_status
start_display-IsTurn [] m = map_shown
start_display-IsTurn (a ∷ airlines) m = airline_shown (start_display-IsTurn airlines m)
