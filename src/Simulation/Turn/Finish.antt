-- ===== src/Simulation/Turn/Finish.antt =====
-- app/map.c, `runMap`: a turn in which every airline answers.
use tp1_so_2c.Base.{
  ℕ, suc, ◌+◌, ◌≡◌, refl, sym, subst, Bool, true, false, List, [], ◌∷◌, ◌++◌, Option, none, some,
  ◌==◌, arith, if◌then◌else◌,
}
use tp1_so_2c.Comm.{AirlineStatus, StockStateMessage, CheckDestinationsMessage}
use tp1_so_2c.Models.{Map}
use tp1_so_2c.Simulation.Offer.{QSort, city_info_comparator}
use tp1_so_2c.Simulation.Turn.{
  PlaneMessage, airline_done, unload_stock, check_destinations, airline_status, invalid, Sent, step,
  continue, Phase, finished, blocked, fault, after_sending, on_unload_stock, on_check_destinations,
  phase1, phase2, broadcast, comm_send_airline_status, after_phase2, after_phase1, do_turn,
}
use tp1_so_2c.Simulation.Turn.Sound.{IsSound, IsLike, IsLike-refl, IsLike-trans}
use tp1_so_2c.Simulation.Turn.Safe.{
  Handles, AllFit, AllFit-like, on_unload_stock-Handles, on_check_destinations-Handles,
}

-- The messages of a phase up to the last answer of `k` airlines.
pub data FirstPhase : ℕ → List PlaneMessage → Type 0 where
  all_done : FirstPhase 0 []
  done : {k : ℕ} {ms : List PlaneMessage} → FirstPhase k ms → FirstPhase (suc k) (airline_done ∷ ms)
  unloads :
      {k : ℕ} {msg : StockStateMessage} {ms : List PlaneMessage}
      → FirstPhase (suc k) ms
      → FirstPhase (suc k) (unload_stock msg ∷ ms)

pub data SecondPhase : ℕ → List PlaneMessage → Type 0 where
  all_told : SecondPhase 0 []
  tells :
      {k : ℕ} {s : AirlineStatus} {ms : List PlaneMessage}
      → SecondPhase k ms
      → SecondPhase (suc k) (airline_status s ∷ ms)
  asks :
      {k : ℕ} {msg : CheckDestinationsMessage} {ms : List PlaneMessage}
      → SecondPhase (suc k) ms
      → SecondPhase (suc k) (check_destinations msg ∷ ms)

-- A phase ends, and leaves some messages and a sound map that is like the old one.
abbrev pub EndsAt : Map → List PlaneMessage → Phase → Type 0
EndsAt m rest (finished m' inbox sent) = (inbox ≡ rest) × IsSound m' × IsLike m m'
EndsAt m rest (blocked m' sent) = ⊥
EndsAt m rest fault = ⊥

EndsAt-after :
    (m : Map) (rest : List PlaneMessage) (sent : List Sent) (p : Phase)
    → EndsAt m rest p
    → EndsAt m rest (after_sending sent p)
EndsAt-after m rest sent (finished m' inbox later) e = e
EndsAt-after m rest sent (blocked m' later) e = e
EndsAt-after m rest sent fault e = e

EndsAt-from :
    (m m' : Map) (rest : List PlaneMessage) (p : Phase)
    → IsLike m m'
    → EndsAt m' rest p
    → EndsAt m rest p
EndsAt-from m m' rest (finished m'' inbox later) l e = (e.0, e.1, IsLike-trans l e.2)
EndsAt-from m m' rest (blocked m'' later) l e = e
EndsAt-from m m' rest fault l e = e

-- The loop goes on while an answer is missing, and ends with the last.
goes_on :
    (m m0 : Map) (rest inbox : List PlaneMessage) (i k n : ℕ) (p : Phase)
    → i + suc k ≡ n
    → EndsAt m rest p
    → EndsAt m rest (if i == n then finished m0 inbox [] else p)
goes_on m m0 rest inbox i k n p e h = by (i == n) (ground arith)
  where
    by : (b : Bool) → b ≡ false → EndsAt m rest (if b then finished m0 inbox [] else p)
    by false f = h
    by true f = cc

ends :
    (m : Map) (inbox : List PlaneMessage) (i n : ℕ) (p : Phase)
    → i + 0 ≡ n
    → IsSound m
    → EndsAt m inbox (if i == n then finished m inbox [] else p)
ends m inbox i n p e s = by (i == n) (ground arith)
  where
    by : (b : Bool) → b ≡ true → EndsAt m inbox (if b then finished m inbox [] else p)
    by true f = (refl, s, IsLike-refl m)
    by false f = cc

handled :
    (m : Map) (rest : List PlaneMessage) (o : Option (Map × List Sent)) (next : Map → Phase)
    → Handles m o
    → ((m' : Map) → IsSound m' → IsLike m m' → EndsAt m' rest (next m'))
    → EndsAt m rest (elim o [ none ↦ fault | some (m', s) ↦ after_sending s (next m') ])
handled m rest o next (out, e, sound, like) more = rw e (
    EndsAt-after m rest out.1 (next out.0)
      (EndsAt-from m out.0 rest (next out.0) like (more out.0 sound like)))

phase1-ends :
    (n i : ℕ) (m : Map) (inbox : List PlaneMessage)
    → i + 0 ≡ n
    → IsSound m
    → EndsAt m inbox (phase1 n i m inbox)
unfolding phase1
phase1-ends n i m [] e s = ends m [] i n _ e s
phase1-ends n i m (airline_done ∷ inbox) e s = ends m (airline_done ∷ inbox) i n _ e s
phase1-ends n i m (unload_stock msg ∷ inbox) e s = ends m (unload_stock msg ∷ inbox) i n _ e s
phase1-ends n i m (check_destinations msg ∷ inbox) e s =
    ends m (check_destinations msg ∷ inbox) i n _ e s
phase1-ends n i m (airline_status a ∷ inbox) e s = ends m (airline_status a ∷ inbox) i n _ e s
phase1-ends n i m (invalid t ∷ inbox) e s = ends m (invalid t ∷ inbox) i n _ e s

phase1-EndsAt :
    (n : ℕ) {k : ℕ} {first : List PlaneMessage} (i : ℕ) (m : Map) (rest : List PlaneMessage)
    → FirstPhase k first
    → i + k ≡ n
    → IsSound m
    → AllFit n m (first ++ rest)
    → EndsAt m rest (phase1 n i m (first ++ rest))
unfolding phase1
phase1-EndsAt n i m rest all_done e s f = phase1-ends n i m rest e s
phase1-EndsAt n i m rest (done {k} {ms} h) e s f =
    goes_on m m rest (airline_done ∷ (ms ++ rest)) i k n _ e
      (phase1-EndsAt n (i + 1) m rest h (omega arith) s f)
phase1-EndsAt n i m rest (unloads {k} {msg} {ms} h) e s f =
    goes_on m m rest (unload_stock msg ∷ (ms ++ rest)) i k n _ e (
      handled m rest (on_unload_stock n m msg) (λ m'. phase1 n i m' (ms ++ rest))
        (on_unload_stock-Handles n m msg s f.0)
        (λ m' s' l. phase1-EndsAt n i m' rest h e s' (AllFit-like n (ms ++ rest) l f.1)))

phase2-ends :
    (qsort : QSort city_info_comparator) (n i : ℕ) (m : Map) (inbox : List PlaneMessage)
    → i + 0 ≡ n
    → IsSound m
    → EndsAt m inbox (phase2 qsort n i m inbox)
unfolding phase2
phase2-ends qsort n i m [] e s = ends m [] i n _ e s
phase2-ends qsort n i m (airline_done ∷ inbox) e s = ends m (airline_done ∷ inbox) i n _ e s
phase2-ends qsort n i m (unload_stock msg ∷ inbox) e s = ends m (unload_stock msg ∷ inbox) i n _ e s
phase2-ends qsort n i m (check_destinations msg ∷ inbox) e s =
    ends m (check_destinations msg ∷ inbox) i n _ e s
phase2-ends qsort n i m (airline_status a ∷ inbox) e s = ends m (airline_status a ∷ inbox) i n _ e s
phase2-ends qsort n i m (invalid t ∷ inbox) e s = ends m (invalid t ∷ inbox) i n _ e s

phase2-EndsAt :
    (qsort : QSort city_info_comparator) (n : ℕ) {k : ℕ} {second : List PlaneMessage} (i : ℕ)
    (m : Map) (rest : List PlaneMessage)
    → SecondPhase k second
    → i + k ≡ n
    → IsSound m
    → AllFit n m (second ++ rest)
    → EndsAt m rest (phase2 qsort n i m (second ++ rest))
unfolding phase2
phase2-EndsAt qsort n i m rest all_told e s f = phase2-ends qsort n i m rest e s
phase2-EndsAt qsort n i m rest (tells {k} {s = a} {ms} h) e s f =
    goes_on m m rest (airline_status a ∷ (ms ++ rest)) i k n _ e (
      EndsAt-after m rest (comm_send_airline_status a ∷ []) _
        (phase2-EndsAt qsort n (i + 1) m rest h (omega arith) s f))
phase2-EndsAt qsort n i m rest (asks {k} {msg} {ms} h) e s f =
    goes_on m m rest (check_destinations msg ∷ (ms ++ rest)) i k n _ e (
      handled m rest (on_check_destinations qsort n m msg) (λ m'. phase2 qsort n i m' (ms ++ rest))
        (on_check_destinations-Handles qsort n m msg s f.0)
        (λ m' s' l. phase2-EndsAt qsort n i m' rest h e s' (AllFit-like n (ms ++ rest) l f.1)))

AllFit-behind :
    (n : ℕ) {k : ℕ} {first : List PlaneMessage} (m : Map) (rest : List PlaneMessage)
    → FirstPhase k first
    → AllFit n m (first ++ rest)
    → AllFit n m rest
AllFit-behind n m rest all_done f = f
AllFit-behind n m rest (done h) f = AllFit-behind n m rest h f
AllFit-behind n m rest (unloads h) f = AllFit-behind n m rest h f.1

behind_phase2 :
    (m : Map) (rest : List PlaneMessage) (p : Phase)
    → EndsAt m rest p
    → EndsAt m rest (after_phase2 p)
unfolding after_phase2
behind_phase2 m rest (finished m' inbox sent) e = e
behind_phase2 m rest (blocked m' sent) e = e
behind_phase2 m rest fault e = e

behind_phase1 :
    (qsort : QSort city_info_comparator) (n : ℕ) {second : List PlaneMessage} (m : Map)
    (rest : List PlaneMessage) (p : Phase)
    → SecondPhase n second
    → AllFit n m (second ++ rest)
    → EndsAt m (second ++ rest) p
    → EndsAt m rest (after_phase1 qsort n p)
unfolding after_phase1
behind_phase1 qsort n {second} m rest (finished m' inbox sent) h f (at, sound, like) =
    EndsAt-after m rest (sent ++ broadcast continue 0 n) (after_phase2 (phase2 qsort n 0 m' inbox))
      (behind_phase2 m rest (phase2 qsort n 0 m' inbox) (
        EndsAt-from m m' rest (phase2 qsort n 0 m' inbox) like (
          subst (λ ms. EndsAt m' rest (phase2 qsort n 0 m' ms)) (sym at)
            (phase2-EndsAt qsort n 0 m' rest h (omega arith) sound
              (AllFit-like n (second ++ rest) like f)))))
behind_phase1 qsort n m rest (blocked m' sent) h f e = absurd e
behind_phase1 qsort n m rest fault h f e = absurd e

-- A turn on a sound map ends, if the messages fit the map and have those of the first phase, with the last
-- "done" of as many airlines as there are at their end, and then those of the second, with the last status
-- at their end: it leaves just the messages behind them, and a sound map with the same products and as
-- many cities.
pub do_turn-EndsAt :
    (qsort : QSort city_info_comparator) (n : ℕ) (m : Map) (first second rest : List PlaneMessage)
    → IsSound m
    → FirstPhase n first
    → SecondPhase n second
    → AllFit n m (first ++ (second ++ rest))
    → EndsAt m rest (do_turn qsort n m (first ++ (second ++ rest)))
unfolding do_turn
do_turn-EndsAt qsort n m first second rest s h k f =
    let inbox = first ++ (second ++ rest) in
    EndsAt-after m rest (broadcast step 0 n) (after_phase1 qsort n (phase1 n 0 m inbox)) (
      behind_phase1 qsort n m rest (phase1 n 0 m inbox) k (AllFit-behind n m (second ++ rest) h f)
        (phase1-EndsAt n 0 m (second ++ rest) h (omega arith) s f))
