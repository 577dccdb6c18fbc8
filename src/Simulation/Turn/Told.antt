-- ===== src/Simulation/Turn/Told.antt =====
-- app/map.c: which figures a turn of `runMap` shows, and in which order.
use tp1_so_2c.Base.{ℕ, ◌≡◌, refl, ap, ap₂, ◌∙◌, List, [], ◌∷◌, ◌++◌, length, arith}
use tp1_so_2c.Comm.{Message}
use tp1_so_2c.Models.{Map}
use tp1_so_2c.Marshall.{marshall_send_map_status}
use tp1_so_2c.Simulation.Status.{get_map_status}
use tp1_so_2c.Simulation.Offer.{QSort, city_info_comparator}
use tp1_so_2c.Simulation.Turn.{
  PlaneMessage, Sent, step, continue, Phase, finished, blocked, fault, after_sending, phase1,
  phase2, broadcast, send_map_status, after_phase2, after_phase1, do_turn,
}
use tp1_so_2c.Simulation.Turn.Shown.{displayed, map_message, displayed-append, broadcast_shows}
use tp1_so_2c.Simulation.Turn.Tallies.{
  dones, statuses, messages_of, Reads, ReadsDones, phase1-ReadsDones, told_count, told_statuses,
  phase2-Reads,
}

-- What a turn has read and shown. The first loop reads as many messages of airlines that are done as there
-- are airlines; the second one as many statuses. These are shown in their order, and behind them the
-- satisfied cities and the number of the cities of the map that the turn leaves.
pub record Told (n : ℕ) (inbox : List PlaneMessage) (m' : Map) (inbox' : List PlaneMessage)
    (shown : List Message) : Type 0 where
  pub first : List PlaneMessage
  pub second : List PlaneMessage
  pub read : inbox ≡ first ++ (second ++ inbox')
  pub all_done : dones first ≡ n
  pub all_told : length (statuses second) ≡ n
  pub figures :
      shown
      ≡ messages_of (statuses second) ++ map_message (get_map_status m').1 (length m'.cities) ∷ []

abbrev pub IsTold : ℕ → List PlaneMessage → Phase → Type 0
IsTold n inbox (finished m' inbox' sent) = Told n inbox m' inbox' (displayed sent)
IsTold n inbox _ = Unit

module _ (qsort : QSort city_info_comparator) (n : ℕ) where
  -- What the turn sends before the first loop and between the loops is not for the display.
  IsTold-after :
      (inbox : List PlaneMessage) (sent : List Sent) (p : Phase)
      → displayed sent ≡ []
      → IsTold n inbox p
      → IsTold n inbox (after_sending sent p)
  IsTold-after inbox sent (finished m inbox' sent') none_shown t = record {
    first = t.first;
    second = t.second;
    read = t.read;
    all_done = t.all_done;
    all_told = t.all_told;
    figures = displayed-append sent sent' ∙ ap (λ x. x ++ displayed sent') none_shown ∙ t.figures;
  }
  IsTold-after inbox sent (blocked m sent') none_shown t = tt
  IsTold-after inbox sent fault none_shown t = tt

  after_phase2-IsTold :
      (inbox between first : List PlaneMessage) (p : Phase)
      → inbox ≡ first ++ between
      → dones first ≡ n
      → Reads told_count told_statuses n between p
      → IsTold n inbox (after_phase2 p)
  unfolding after_phase2 send_map_status marshall_send_map_status
  after_phase2-IsTold inbox between first (finished m inbox' sent) e d
        (used, read, counted, shown) =
      record {
        first = first;
        second = used;
        read = e ∙ ap (λ l. first ++ l) read;
        all_done = d;
        all_told = counted;
        figures =
            displayed-append sent (send_map_status m ∷ [])
            ∙ ap (λ l. l ++ displayed (send_map_status m ∷ [])) shown;
      }
  after_phase2-IsTold inbox between first (blocked m sent) e d r = tt
  after_phase2-IsTold inbox between first fault e d r = tt

  after_phase1-IsTold :
      (inbox : List PlaneMessage) (p : Phase)
      → ReadsDones n inbox p
      → IsTold n inbox (after_phase1 qsort n p)
  unfolding after_phase1
  after_phase1-IsTold inbox (finished m between sent) (first, read, counted, shown) =
      IsTold-after inbox (sent ++ broadcast continue 0 n)
        (after_phase2 (phase2 qsort n 0 m between))
        (displayed-append sent (broadcast continue 0 n)
          ∙ ap₂ (λ a b. a ++ b) shown (broadcast_shows continue 0 n (λ j sent. refl)))
        (after_phase2-IsTold inbox between first (phase2 qsort n 0 m between) read counted
          (phase2-Reads qsort n 0 n m between (omega arith)))
  after_phase1-IsTold inbox (blocked m sent) r = tt
  after_phase1-IsTold inbox fault r = tt

  -- A turn that finishes has read, of what the airlines send, as many messages of airlines that are done as
  -- there are airlines, and behind them as many statuses. The display is sent those statuses with their
  -- figures, in the order in which they came, and at last the satisfied cities and the number of the cities
  -- of the map that the turn leaves.
  pub do_turn-IsTold :
      (m : Map) (inbox : List PlaneMessage) → IsTold n inbox (do_turn qsort n m inbox)
  unfolding do_turn
  do_turn-IsTold m inbox =
      IsTold-after inbox (broadcast step 0 n) (after_phase1 qsort n (phase1 n 0 m inbox))
        (broadcast_shows step 0 n (λ j sent. refl))
        (after_phase1-IsTold inbox (phase1 n 0 m inbox)
          (phase1-ReadsDones n 0 n m inbox (omega arith)))
