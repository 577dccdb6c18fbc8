-- ===== src/Simulation/Turn/Safe.antt =====
-- app/map.c, `runMap`: the phases, at messages that fit the map.
use tp1_so_2c.Base.{
  ℕ, ◌+◌, ◌≤◌, ◌≡◌, refl, sym, subst, Bool, true, false, List, [], ◌∷◌, ◌++◌, Option, none, some,
  ◌==◌, length, ltb, arith, if◌then◌else◌,
}
use tp1_so_2c.Base.Int.{ℤ, pos, negsuc}
use tp1_so_2c.Comm.{
  max_stocks, StockMessagePart, PlaneMessageHeader, StockStateMessage, CheckDestinationsMessage,
}
use tp1_so_2c.Models.{City, Map, Plane, get_distance}
use tp1_so_2c.Marshall.RoundTrip.{marshall_change_stock-fits}
use tp1_so_2c.Simulation.Receive.{init_plane}
use tp1_so_2c.Simulation.Offer.{QSort, city_info_comparator}
use tp1_so_2c.Simulation.Offer.Nearest.{app_give_destinations_lem}
use tp1_so_2c.Simulation.Destinations.Loop.{HasDistances}
use tp1_so_2c.Simulation.Turn.{
  PlaneMessage, airline_done, unload_stock, check_destinations, airline_status, invalid, Sent, step,
  continue, Phase, finished, blocked, fault, after_sending, on_unload_stock, on_check_destinations,
  phase1, phase2, broadcast, comm_send_airline_status, after_phase2, after_phase1, do_turn,
}
use tp1_so_2c.Simulation.Turn.Sound.{
  AreStocked, IsSound, IsIndex, Fits, IsLike, IsLike-refl, init_stocks-known, update_map-runs,
}

init_plane-runs :
    (m : Map) (airlines : ℕ) (header : PlaneMessageHeader) (part : StockMessagePart)
    → IsSound m
    → Fits airlines m header part
    → (plane : Plane) × (init_plane part header m ≡ some (plane, m))
      × (length plane.stocks ≤ max_stocks)
      × (plane.city_id ≡ header.city_id)
unfolding init_plane
init_plane-runs m airlines header part s f =
    let (ss, runs, size) =
      init_stocks-known m.product part.count part.stock_id part.quantities s.catalogue f.3 in
    (
      record { id = header.id; stocks = ss; city_id = header.city_id; distance = 0 },
      rw runs,
      omega (arith, size, f.2),
      refl,
    )

-- A message is handled, and leaves a sound map that is like the old one.
abbrev pub Handles : Map → Option (Map × List Sent) → Type 0
Handles m o = (out : Map × List Sent) × (o ≡ some out) × IsSound out.0 × IsLike m out.0

pub on_unload_stock-Handles :
    (airlines : ℕ) (m : Map) (msg : StockStateMessage)
    → IsSound m
    → Fits airlines m msg.header msg.stocks
    → Handles m (on_unload_stock airlines m msg)
unfolding on_unload_stock
on_unload_stock-Handles airlines m msg s f =
    let (plane, made, few, city) = init_plane-runs m airlines msg.header msg.stocks s f in
    let (out, moved, sound, like, size) =
      update_map-runs m plane s (subst (IsIndex (length m.cities)) (sym city) f.1) in
    let (reply, sent) =
      marshall_change_stock-fits msg.header.airline out.1.id out.1.city_id out.1.stocks
        (omega (arith, few, size)) in
    let known : ltb msg.header.airline airlines ≡ true = ground (arith, f.0) in
    ((out.0, Sent.stock msg.header.airline reply ∷ []), rw (made, moved, known, sent), sound, like)

HasDistances-sound :
    (m : Map) (plane : Plane) (cs : List City)
    → IsSound m
    → IsIndex (length m.cities) plane.city_id
    → AreStocked (length m.cities) cs
    → HasDistances m plane cs
HasDistances-sound m plane [] s at a = tt
HasDistances-sound m plane (c ∷ cs) s at a =
    (to_city plane.city_id at, HasDistances-sound m plane cs s at a.2)
  where
    to_city : (id : ℤ) → IsIndex (length m.cities) id → (d : ℕ) × (get_distance m c.id id ≡ some d)
    to_city (pos j) lt = s.distances c.id j a.0 lt
    to_city (negsuc j) lt = absurd lt

pub on_check_destinations-Handles :
    (qsort : QSort city_info_comparator) (airlines : ℕ) (m : Map) (msg : CheckDestinationsMessage)
    → IsSound m
    → Fits airlines m msg.header msg.stocks
    → Handles m (on_check_destinations qsort airlines m msg)
unfolding on_check_destinations
on_check_destinations-Handles qsort airlines m msg s f =
    let (plane, made, few, city) = init_plane-runs m airlines msg.header msg.stocks s f in
    let at = subst (IsIndex (length m.cities)) (sym city) f.1 in
    let (reply, sent, offered) =
      app_give_destinations_lem qsort m plane
        (HasDistances-sound m plane m.cities s at s.stocked) in
    let known : ltb msg.header.airline airlines ≡ true = ground (arith, f.0) in
    ((m, Sent.destinations msg.header.airline reply ∷ []), rw (made, known, sent), s, IsLike-refl m)

-- The messages that wait fit the map.
abbrev pub AllFit : ℕ → Map → List PlaneMessage → Type 0
AllFit n m [] = Unit
AllFit n m (unload_stock msg ∷ ms) = Fits n m msg.header msg.stocks × AllFit n m ms
AllFit n m (check_destinations msg ∷ ms) = Fits n m msg.header msg.stocks × AllFit n m ms
AllFit n m (msg ∷ ms) = AllFit n m ms

Fits-like :
    {n : ℕ} {m m' : Map} (header : PlaneMessageHeader) (part : StockMessagePart)
    → IsLike m m'
    → Fits n m header part
    → Fits n m' header part
Fits-like header part l f = (f.0, rw l.cities f.1, f.2, rw l.products f.3)

pub AllFit-like :
    (n : ℕ) {m m' : Map} (ms : List PlaneMessage) → IsLike m m' → AllFit n m ms → AllFit n m' ms
AllFit-like n [] l f = tt
AllFit-like n (unload_stock msg ∷ ms) l f =
    (Fits-like msg.header msg.stocks l f.0, AllFit-like n ms l f.1)
AllFit-like n (check_destinations msg ∷ ms) l f =
    (Fits-like msg.header msg.stocks l f.0, AllFit-like n ms l f.1)
AllFit-like n (airline_done ∷ ms) l f = AllFit-like n ms l f
AllFit-like n (airline_status s ∷ ms) l f = AllFit-like n ms l f
AllFit-like n (invalid t ∷ ms) l f = AllFit-like n ms l f

-- A phase ends at no fault; if it finishes, with a sound map and messages that fit it.
abbrev pub IsSafe : ℕ → Phase → Type 0
IsSafe n (finished m inbox sent) = IsSound m × AllFit n m inbox
IsSafe n (blocked m sent) = Unit
IsSafe n fault = ⊥

IsSafe-after : (n : ℕ) (sent : List Sent) (p : Phase) → IsSafe n p → IsSafe n (after_sending sent p)
IsSafe-after n sent (finished m inbox later) h = h
IsSafe-after n sent (blocked m later) h = h
IsSafe-after n sent fault h = h

IsSafe-or :
    (n : ℕ) (b : Bool) (m : Map) (inbox : List PlaneMessage) (rest : Phase)
    → IsSound m
    → AllFit n m inbox
    → IsSafe n rest
    → IsSafe n (if b then finished m inbox [] else rest)
IsSafe-or n true m inbox rest s f h = (s, f)
IsSafe-or n false m inbox rest s f h = h

IsSafe-end :
    (n : ℕ) (b : Bool) (m : Map)
    → IsSound m
    → IsSafe n (if b then finished m [] [] else blocked m [])
IsSafe-end n true m s = (s, tt)
IsSafe-end n false m s = tt

-- The phase goes on behind a message that is handled.
behind_message :
    (n : ℕ) (m : Map) (o : Option (Map × List Sent)) (next : Map → Phase)
    → Handles m o
    → ((m' : Map) → IsSound m' → IsLike m m' → IsSafe n (next m'))
    → IsSafe n (elim o [ none ↦ fault | some (m', s) ↦ after_sending s (next m') ])
behind_message n m o next (out, e, sound, like) more =
    rw e (IsSafe-after n out.1 (next out.0) (more out.0 sound like))

module _ (n : ℕ) where
  phase1-IsSafe :
      (i : ℕ) (m : Map) (inbox : List PlaneMessage)
      → IsSound m
      → AllFit n m inbox
      → IsSafe n (phase1 n i m inbox)
  unfolding phase1
  phase1-IsSafe i m [] s f = IsSafe-end n (i == n) m s
  phase1-IsSafe i m (airline_done ∷ inbox) s f =
      IsSafe-or n (i == n) m (airline_done ∷ inbox) _ s f (phase1-IsSafe (i + 1) m inbox s f)
  phase1-IsSafe i m (unload_stock msg ∷ inbox) s f =
      IsSafe-or n (i == n) m (unload_stock msg ∷ inbox) _ s f (
        behind_message n m (on_unload_stock n m msg) (λ m'. phase1 n i m' inbox)
          (on_unload_stock-Handles n m msg s f.0)
          (λ m' s' l. phase1-IsSafe i m' inbox s' (AllFit-like n inbox l f.1)))
  phase1-IsSafe i m (check_destinations msg ∷ inbox) s f =
      IsSafe-or n (i == n) m (check_destinations msg ∷ inbox) _ s f (phase1-IsSafe i m inbox s f.1)
  phase1-IsSafe i m (airline_status a ∷ inbox) s f =
      IsSafe-or n (i == n) m (airline_status a ∷ inbox) _ s f (phase1-IsSafe i m inbox s f)
  phase1-IsSafe i m (invalid t ∷ inbox) s f =
      IsSafe-or n (i == n) m (invalid t ∷ inbox) _ s f (phase1-IsSafe i m inbox s f)

module _ (qsort : QSort city_info_comparator) (n : ℕ) where
  phase2-IsSafe :
      (i : ℕ) (m : Map) (inbox : List PlaneMessage)
      → IsSound m
      → AllFit n m inbox
      → IsSafe n (phase2 qsort n i m inbox)
  unfolding phase2
  phase2-IsSafe i m [] s f = IsSafe-end n (i == n) m s
  phase2-IsSafe i m (airline_status a ∷ inbox) s f =
      IsSafe-or n (i == n) m (airline_status a ∷ inbox) _ s f
        (IsSafe-after n (comm_send_airline_status a ∷ []) _ (phase2-IsSafe (i + 1) m inbox s f))
  phase2-IsSafe i m (check_destinations msg ∷ inbox) s f =
      IsSafe-or n (i == n) m (check_destinations msg ∷ inbox) _ s f (
        behind_message n m (on_check_destinations qsort n m msg) (λ m'. phase2 qsort n i m' inbox)
          (on_check_destinations-Handles qsort n m msg s f.0)
          (λ m' s' l. phase2-IsSafe i m' inbox s' (AllFit-like n inbox l f.1)))
  phase2-IsSafe i m (unload_stock msg ∷ inbox) s f =
      IsSafe-or n (i == n) m (unload_stock msg ∷ inbox) _ s f (phase2-IsSafe i m inbox s f.1)
  phase2-IsSafe i m (airline_done ∷ inbox) s f =
      IsSafe-or n (i == n) m (airline_done ∷ inbox) _ s f (phase2-IsSafe i m inbox s f)
  phase2-IsSafe i m (invalid t ∷ inbox) s f =
      IsSafe-or n (i == n) m (invalid t ∷ inbox) _ s f (phase2-IsSafe i m inbox s f)

  behind_phase2 : (p : Phase) → IsSafe n p → IsSafe n (after_phase2 p)
  unfolding after_phase2
  behind_phase2 (finished m inbox sent) h = h
  behind_phase2 (blocked m sent) h = h
  behind_phase2 fault h = h

  behind_phase1 : (p : Phase) → IsSafe n p → IsSafe n (after_phase1 qsort n p)
  unfolding after_phase1
  behind_phase1 (finished m inbox sent) h =
      IsSafe-after n (sent ++ broadcast continue 0 n) (after_phase2 (phase2 qsort n 0 m inbox))
        (behind_phase2 (phase2 qsort n 0 m inbox) (phase2-IsSafe 0 m inbox h.0 h.1))
  behind_phase1 (blocked m sent) h = h
  behind_phase1 fault h = h

  pub do_turn-IsSafe :
      (m : Map) (inbox : List PlaneMessage)
      → IsSound m
      → AllFit n m inbox
      → IsSafe n (do_turn qsort n m inbox)
  unfolding do_turn
  do_turn-IsSafe m inbox s f =
      IsSafe-after n (broadcast step 0 n) (after_phase1 qsort n (phase1 n 0 m inbox))
        (behind_phase1 (phase1 n 0 m inbox) (phase1-IsSafe n 0 m inbox s f))
