-- ===== src/Simulation/Turn/Phases.antt =====
-- app/map.c, `runMap`: what the phases of a turn, and the turn, do to the needs of the cities.
use tp1_so_2c.Base.{
  ℕ, ◌+◌, ◌≡◌, refl, ap, sym, ◌∙◌, Bool, true, false, Bool-cases, inl, inr, List, [], ◌∷◌, none,
  some, arith, >>=-eq-some, some_inj, length, Option-cases, if◌then◌else◌, ◌==◌, ltb,
}
use tp1_so_2c.Comm.{StockStateMessage, CheckDestinationsMessage}
use tp1_so_2c.Models.{Map}
use tp1_so_2c.Marshall.{marshall_change_stock}
use tp1_so_2c.Simulation.Receive.{init_plane}
use tp1_so_2c.Simulation.Unload.{update_map}
use tp1_so_2c.Simulation.Status.Laws.{AllNonNegative}
use tp1_so_2c.Simulation.Offer.{QSort, city_info_comparator, app_give_destinations}
use tp1_so_2c.Simulation.Effects.{
  Shrinks, update_map-Moved, NonNegativeQuantities, init_plane-keeps,
}
use tp1_so_2c.Simulation.Turn.{
  PlaneMessage, airline_done, unload_stock, check_destinations, airline_status, invalid, Sent,
  Phase, finished, blocked, fault, after_sending, on_unload_stock, on_check_destinations, phase1,
  phase2, comm_send_airline_status, after_phase1, after_phase2, do_turn,
}

-- The planes that the messages speak of carry no negative amount.
abbrev pub AreNonNegative : List PlaneMessage → Type 0
AreNonNegative [] = Unit
AreNonNegative (unload_stock s ∷ ms) = NonNegativeQuantities s.stocks.quantities × AreNonNegative ms
AreNonNegative (check_destinations s ∷ ms) =
    NonNegativeQuantities s.stocks.quantities × AreNonNegative ms
AreNonNegative (_ ∷ ms) = AreNonNegative ms

-- If the phase does not end at a fault, the needs have shrunk from those of `m`, and the messages left
-- are as good as those that came.
abbrev pub Keeps : Map → Phase → Type 0
Keeps m (finished m' inbox sent) = Shrinks m m' × AreNonNegative inbox
Keeps m (blocked m' sent) = Shrinks m m'
Keeps m fault = Unit

pub Shrinks-refl : (m : Map) → AllNonNegative m.cities → Shrinks m m
Shrinks-refl m h = record { needs = omega arith; nonneg = h; cities = refl }

pub Shrinks-trans : {a b c : Map} → Shrinks a b → Shrinks b c → Shrinks a c
Shrinks-trans p q = record {
  needs = omega (arith, p.needs, q.needs);
  nonneg = q.nonneg;
  cities = q.cities ∙ p.cities;
}

pub Keeps-from : {a : Map} (b : Map) (p : Phase) → Shrinks a b → Keeps b p → Keeps a p
Keeps-from b (finished m inbox sent) s k = (Shrinks-trans s k.0, k.1)
Keeps-from b (blocked m sent) s k = Shrinks-trans s k
Keeps-from b fault s k = tt

pub Keeps-after : (a : Map) (s : List Sent) (p : Phase) → Keeps a p → Keeps a (after_sending s p)
Keeps-after a s (finished m inbox sent) k = k
Keeps-after a s (blocked m sent) k = k
Keeps-after a s fault k = tt

on_unload_stock-Shrinks :
    (n : ℕ) (m : Map) (msg : StockStateMessage) {out : Map × List Sent}
    → AllNonNegative m.cities
    → NonNegativeQuantities msg.stocks.quantities
    → on_unload_stock n m msg ≡ some out
    → Shrinks m out.0
unfolding on_unload_stock
on_unload_stock-Shrinks n m msg {out} h hq run =
    let (made, r1, r2) = >>=-eq-some (init_plane msg.stocks msg.header m) _ run in
    let (moved, r3, r4) = >>=-eq-some (update_map made.1 made.0) _ r2 in
    let (_, _, r5) = >>=-eq-some (if ltb msg.header.airline n then some tt else none) _ r4 in
    let (reply, _, r6) =
      >>=-eq-some
        (marshall_change_stock msg.header.airline moved.1.id moved.1.city_id moved.1.stocks) _ r5 in
    let kept = init_plane-keeps msg.stocks msg.header m hq r1 in
    let step = update_map-Moved made.1 made.0 (rw kept.0 h) kept.2 r3 in
    rw (sym (some_inj r6)) (record {
      needs = rw (← kept.0) step.shrinks.needs;
      nonneg = step.shrinks.nonneg;
      cities = step.shrinks.cities ∙ ap length kept.0;
    })

on_check_destinations-Shrinks :
    (qsort : QSort city_info_comparator) (n : ℕ) (m : Map) (msg : CheckDestinationsMessage)
    {out : Map × List Sent}
    → AllNonNegative m.cities
    → NonNegativeQuantities msg.stocks.quantities
    → on_check_destinations qsort n m msg ≡ some out
    → Shrinks m out.0
unfolding on_check_destinations
on_check_destinations-Shrinks qsort n m msg h hq run =
    let (made, r1, r2) = >>=-eq-some (init_plane msg.stocks msg.header m) _ run in
    let (_, _, r3) = >>=-eq-some (if ltb msg.header.airline n then some tt else none) _ r2 in
    let (reply, _, r4) = >>=-eq-some (app_give_destinations qsort made.1 made.0) _ r3 in
    let kept = init_plane-keeps msg.stocks msg.header m hq r1 in
    rw (sym (some_inj r4))
      (record { needs = rw kept.0 (omega arith); nonneg = rw kept.0 h; cities = ap length kept.0 })

-- A message that leaves the map alone.
skip :
    (b : Bool) (m : Map) (msg : PlaneMessage) (ms : List PlaneMessage) (rest : Phase)
    → AllNonNegative m.cities
    → AreNonNegative (msg ∷ ms)
    → Keeps m rest
    → Keeps m (if b then finished m (msg ∷ ms) [] else rest)
skip true m msg ms rest h hm k = (Shrinks-refl m h, hm)
skip false m msg ms rest h hm k = k

pub phase1-Keeps :
    (n i : ℕ) (m : Map) (ms : List PlaneMessage)
    → AllNonNegative m.cities
    → AreNonNegative ms
    → Keeps m (phase1 n i m ms)
unfolding phase1
phase1-Keeps n i m [] h hm = elim (Bool-cases (i == n)) [
  | inl e ↦ rw e (Shrinks-refl m h, tt)
  | inr e ↦ rw e (Shrinks-refl m h)
]
phase1-Keeps n i m (airline_done ∷ ms) h hm =
    skip (i == n) m airline_done ms _ h hm (phase1-Keeps n (i + 1) m ms h hm)
phase1-Keeps n i m (unload_stock msg ∷ ms) h hm =
    skip (i == n) m (unload_stock msg) ms _ h hm (elim (Option-cases (on_unload_stock n m msg)) [
      | inl e ↦ rw e tt
      | inr (out, e) ↦
          let s = on_unload_stock-Shrinks n m msg h hm.0 e in
          rw e
            (Keeps-after m out.1 _ (Keeps-from out.0 _ s (phase1-Keeps n i out.0 ms s.nonneg hm.1)))
    ])
phase1-Keeps n i m (check_destinations msg ∷ ms) h hm =
    skip (i == n) m (check_destinations msg) ms _ h hm (phase1-Keeps n i m ms h hm.1)
phase1-Keeps n i m (airline_status s ∷ ms) h hm =
    skip (i == n) m (airline_status s) ms _ h hm (phase1-Keeps n i m ms h hm)
phase1-Keeps n i m (invalid t ∷ ms) h hm =
    skip (i == n) m (invalid t) ms _ h hm (phase1-Keeps n i m ms h hm)

pub phase2-Keeps :
    (qsort : QSort city_info_comparator) (n i : ℕ) (m : Map) (ms : List PlaneMessage)
    → AllNonNegative m.cities
    → AreNonNegative ms
    → Keeps m (phase2 qsort n i m ms)
unfolding phase2
phase2-Keeps qsort n i m [] h hm = elim (Bool-cases (i == n)) [
  | inl e ↦ rw e (Shrinks-refl m h, tt)
  | inr e ↦ rw e (Shrinks-refl m h)
]
phase2-Keeps qsort n i m (airline_status s ∷ ms) h hm =
    skip (i == n) m (airline_status s) ms _ h hm
      (Keeps-after m (comm_send_airline_status s ∷ []) _ (phase2-Keeps qsort n (i + 1) m ms h hm))
phase2-Keeps qsort n i m (check_destinations msg ∷ ms) h hm =
    skip (i == n) m (check_destinations msg) ms _ h hm
      (elim (Option-cases (on_check_destinations qsort n m msg)) [
        | inl e ↦ rw e tt
        | inr (out, e) ↦
            let s = on_check_destinations-Shrinks qsort n m msg h hm.0 e in
            rw e (
              Keeps-after m out.1 _
                (Keeps-from out.0 _ s (phase2-Keeps qsort n i out.0 ms s.nonneg hm.1)))
      ])
phase2-Keeps qsort n i m (airline_done ∷ ms) h hm =
    skip (i == n) m airline_done ms _ h hm (phase2-Keeps qsort n i m ms h hm)
phase2-Keeps qsort n i m (unload_stock msg ∷ ms) h hm =
    skip (i == n) m (unload_stock msg) ms _ h hm (phase2-Keeps qsort n i m ms h hm.1)
phase2-Keeps qsort n i m (invalid t ∷ ms) h hm =
    skip (i == n) m (invalid t) ms _ h hm (phase2-Keeps qsort n i m ms h hm)

second_phase :
    (qsort : QSort city_info_comparator) (n : ℕ) (m : Map) (p : Phase)
    → Keeps m p
    → Keeps m (after_phase1 qsort n p)
unfolding after_phase1
second_phase qsort n m (finished m' ms sent) k = Keeps-after m _ _ (
    Keeps-from m' _ k.0
      (last (phase2 qsort n 0 m' ms) (phase2-Keeps qsort n 0 m' ms k.0.nonneg k.1)))
  where
    last : (p : Phase) → Keeps m' p → Keeps m' (after_phase2 p)
    last (finished m'' ms' sent') k = k
    last (blocked m'' sent') k = k
    last fault k = tt
second_phase qsort n m (blocked m' sent) k = k
second_phase qsort n m fault k = tt

-- A turn, whatever the airlines send as long as no amount in it is negative: if it does not end at a
-- fault, the need of the cities has not grown, no city has a negative amount, no city has come or
-- gone, and neither is an amount negative in the messages that are left.
pub do_turn-Keeps :
    (qsort : QSort city_info_comparator) (n : ℕ) (m : Map) (ms : List PlaneMessage)
    → AllNonNegative m.cities
    → AreNonNegative ms
    → Keeps m (do_turn qsort n m ms)
unfolding do_turn
do_turn-Keeps qsort n m ms h hm =
    Keeps-after m _ _ (second_phase qsort n m (phase1 n 0 m ms) (phase1-Keeps n 0 m ms h hm))
