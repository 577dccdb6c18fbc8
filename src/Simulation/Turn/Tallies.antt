-- ===== src/Simulation/Turn/Tallies.antt =====
-- app/map.c: what each of the two loops of a turn of `runMap` reads and shows.
use tp1_so_2c.Base.{
  ℕ, suc, ◌+◌, ◌-◌, ◌≡◌, refl, ap, ap₂, sym, ◌∙◌, inl, inr, Bool, true, false, List, [], ◌∷◌, ◌++◌,
  Option-cases, length, ◌==◌, arith, if◌then◌else◌,
}
use tp1_so_2c.Comm.{Message, AirlineStatus}
use tp1_so_2c.Models.{Map}
use tp1_so_2c.Marshall.{marshall_send_airline_status}
use tp1_so_2c.Simulation.Offer.{QSort, city_info_comparator}
use tp1_so_2c.Simulation.Turn.{
  PlaneMessage, airline_done, unload_stock, check_destinations, airline_status, invalid, Sent,
  Phase, finished, blocked, fault, after_sending, on_unload_stock, on_check_destinations, phase1,
  phase2, comm_send_airline_status,
}
use tp1_so_2c.Simulation.Turn.Shown.{
  displayed, airline_message, displayed-append, unload_shows, destinations_shown,
}

-- How many of some messages say that an airline is done.
abbrev pub dones : List PlaneMessage → ℕ
dones [] = 0
dones (airline_done ∷ ms) = suc (dones ms)
dones (_ ∷ ms) = dones ms

-- The statuses of the airlines among some messages.
abbrev pub statuses : List PlaneMessage → List AirlineStatus
statuses [] = []
statuses (airline_status s ∷ ms) = s ∷ statuses ms
statuses (_ ∷ ms) = statuses ms

abbrev pub messages_of : List AirlineStatus → List Message
messages_of [] = []
messages_of (s ∷ ss) = airline_message s ∷ messages_of ss

-- What a loop reads and shows, if it ends: `k` messages of those that it counts.
module _ (count : List PlaneMessage → ℕ) (told : List PlaneMessage → List Message) where
  abbrev pub Reads : ℕ → List PlaneMessage → Phase → Type 0
  Reads k inbox (finished m' inbox' sent) =
      (used : List PlaneMessage) × (inbox ≡ used ++ inbox')
      × (count used ≡ k)
      × (displayed sent ≡ told used)
  Reads k inbox _ = Unit

  -- The loop ends, or goes on with a message.
  Reads-or :
      (b : Bool) (k : ℕ) (m : Map) (inbox : List PlaneMessage) (rest : Phase)
      → count [] ≡ 0
      → told [] ≡ []
      → (b ≡ true → k ≡ 0)
      → (b ≡ false → Reads k inbox rest)
      → Reads k inbox (if b then finished m inbox [] else rest)
  Reads-or true k m inbox rest c t now later = ([], refl, c ∙ sym (now refl), sym t)
  Reads-or false k m inbox rest c t now later = later refl

  Reads-next :
      (c k k' : ℕ) (head : List Message) (sent : List Sent) (msg : PlaneMessage)
      (inbox : List PlaneMessage) (p : Phase)
      → ((ms : List PlaneMessage) → count (msg ∷ ms) ≡ c + count ms)
      → ((ms : List PlaneMessage) → told (msg ∷ ms) ≡ head ++ told ms)
      → displayed sent ≡ head
      → k' ≡ c + k
      → Reads k inbox p
      → Reads k' (msg ∷ inbox) (after_sending sent p)
  Reads-next c k k' head sent msg inbox (finished m inbox' sent') e t s sum
        (used, read, counted, shown) =
      (
        msg ∷ used,
        ap (λ l. msg ∷ l) read,
        e used ∙ ap (λ n. c + n) counted ∙ sym sum,
        displayed-append sent sent' ∙ ap₂ (λ a b. a ++ b) s shown ∙ sym (t used),
      )
  Reads-next c k k' head sent msg inbox (blocked m sent') e t s sum r = tt
  Reads-next c k k' head sent msg inbox fault e t s sum r = tt

  -- A message that the loop does not count, and with which it sends nothing.
  Reads-skip :
      (c k k' : ℕ) (msg : PlaneMessage) (inbox : List PlaneMessage) (p : Phase)
      → ((ms : List PlaneMessage) → count (msg ∷ ms) ≡ c + count ms)
      → ((ms : List PlaneMessage) → told (msg ∷ ms) ≡ told ms)
      → k' ≡ c + k
      → Reads k inbox p
      → Reads k' (msg ∷ inbox) p
  Reads-skip c k k' msg inbox (finished m inbox' sent) e t sum (used, read, counted, shown) = (
    msg ∷ used,
    ap (λ l. msg ∷ l) read,
    e used ∙ ap (λ n. c + n) counted ∙ sym sum,
    shown ∙ sym (t used),
  )
  Reads-skip c k k' msg inbox (blocked m sent) e t sum r = tt
  Reads-skip c k k' msg inbox fault e t sum r = tt

abbrev pub nothing : List PlaneMessage → List Message
nothing ms = []

ends : (n i k : ℕ) → i + k ≡ n → (i == n) ≡ true → k ≡ 0
ends n i k e b = ground arith

goes_on : (n i k : ℕ) → i + k ≡ n → (i == n) ≡ false → k ≡ 1 + (k - 1)
goes_on n i k e b = ground arith

abbrev pub ReadsDones : ℕ → List PlaneMessage → Phase → Type 0
ReadsDones = Reads dones nothing

pub phase1-ReadsDones :
    (n i k : ℕ) (m : Map) (inbox : List PlaneMessage)
    → i + k ≡ n
    → ReadsDones k inbox (phase1 n i m inbox)
unfolding phase1
phase1-ReadsDones n i k m [] e =
    Reads-or dones nothing (i == n) k m [] (blocked m []) refl refl (ends n i k e) (λ b. tt)
phase1-ReadsDones n i k m (airline_done ∷ inbox) e =
    Reads-or dones nothing (i == n) k m _ _ refl refl (ends n i k e) (λ b.
      Reads-skip dones nothing 1 (k - 1) k airline_done inbox _ (λ ms. omega arith) (λ ms. refl)
        (goes_on n i k e b)
        (phase1-ReadsDones n (i + 1) (k - 1) m inbox (omega (arith, e, goes_on n i k e b))))
phase1-ReadsDones n i k m (unload_stock msg ∷ inbox) e =
    Reads-or dones nothing (i == n) k m _ _ refl refl (ends n i k e) (λ b.
      elim (Option-cases (on_unload_stock n m msg)) [
        | inl f ↦ rw f tt
        | inr (out, f) ↦ rw f (
            Reads-next dones nothing 0 k k [] out.1 (unload_stock msg) inbox _ (λ ms. omega arith)
              (λ ms. refl) (unload_shows n m msg f) (omega arith)
              (phase1-ReadsDones n i k out.0 inbox e))
      ])
phase1-ReadsDones n i k m (check_destinations msg ∷ inbox) e =
    Reads-or dones nothing (i == n) k m _ _ refl refl (ends n i k e) (λ b.
      Reads-skip dones nothing 0 k k (check_destinations msg) inbox _ (λ ms. omega arith)
        (λ ms. refl) (omega arith) (phase1-ReadsDones n i k m inbox e))
phase1-ReadsDones n i k m (airline_status s ∷ inbox) e =
    Reads-or dones nothing (i == n) k m _ _ refl refl (ends n i k e) (λ b.
      Reads-skip dones nothing 0 k k (airline_status s) inbox _ (λ ms. omega arith) (λ ms. refl)
        (omega arith) (phase1-ReadsDones n i k m inbox e))
phase1-ReadsDones n i k m (invalid t ∷ inbox) e =
    Reads-or dones nothing (i == n) k m _ _ refl refl (ends n i k e) (λ b.
      Reads-skip dones nothing 0 k k (invalid t) inbox _ (λ ms. omega arith) (λ ms. refl)
        (omega arith) (phase1-ReadsDones n i k m inbox e))

abbrev pub told_count : List PlaneMessage → ℕ
told_count ms = length (statuses ms)

abbrev pub told_statuses : List PlaneMessage → List Message
told_statuses ms = messages_of (statuses ms)

module _ (qsort : QSort city_info_comparator) (n : ℕ) where
  pub phase2-Reads :
      (i k : ℕ) (m : Map) (inbox : List PlaneMessage)
      → i + k ≡ n
      → Reads told_count told_statuses k inbox (phase2 qsort n i m inbox)
  unfolding phase2 marshall_send_airline_status
  phase2-Reads i k m [] e =
      Reads-or told_count told_statuses (i == n) k m [] (blocked m []) refl refl (ends n i k e)
        (λ b. tt)
  phase2-Reads i k m (airline_status s ∷ inbox) e =
      Reads-or told_count told_statuses (i == n) k m _ _ refl refl (ends n i k e) (λ b.
        Reads-next told_count told_statuses 1 (k - 1) k (airline_message s ∷ [])
          (comm_send_airline_status s ∷ []) (airline_status s) inbox _ (λ ms. omega arith)
          (λ ms. refl) refl (goes_on n i k e b)
          (phase2-Reads (i + 1) (k - 1) m inbox (omega (arith, e, goes_on n i k e b))))
  phase2-Reads i k m (check_destinations msg ∷ inbox) e =
      Reads-or told_count told_statuses (i == n) k m _ _ refl refl (ends n i k e) (λ b.
        elim (Option-cases (on_check_destinations qsort n m msg)) [
          | inl f ↦ rw f tt
          | inr (out, f) ↦ rw f (
              Reads-next told_count told_statuses 0 k k [] out.1 (check_destinations msg) inbox _
                (λ ms. omega arith) (λ ms. refl) (destinations_shown qsort n m msg f) (omega arith)
                (phase2-Reads i k out.0 inbox e))
        ])
  phase2-Reads i k m (airline_done ∷ inbox) e =
      Reads-or told_count told_statuses (i == n) k m _ _ refl refl (ends n i k e) (λ b.
        Reads-skip told_count told_statuses 0 k k airline_done inbox _ (λ ms. omega arith)
          (λ ms. refl) (omega arith) (phase2-Reads i k m inbox e))
  phase2-Reads i k m (unload_stock msg ∷ inbox) e =
      Reads-or told_count told_statuses (i == n) k m _ _ refl refl (ends n i k e) (λ b.
        Reads-skip told_count told_statuses 0 k k (unload_stock msg) inbox _ (λ ms. omega arith)
          (λ ms. refl) (omega arith) (phase2-Reads i k m inbox e))
  phase2-Reads i k m (invalid t ∷ inbox) e =
      Reads-or told_count told_statuses (i == n) k m _ _ refl refl (ends n i k e) (λ b.
        Reads-skip told_count told_statuses 0 k k (invalid t) inbox _ (λ ms. omega arith)
          (λ ms. refl) (omega arith) (phase2-Reads i k m inbox e))
