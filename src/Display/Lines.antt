-- ===== src/Display/Lines.antt =====
-- app/output.c: the lines of the terminal on which `run_output` writes.
use tp1_so_2c.Base.{
  ℕ, ◌+◌, ◌≤◌, ◌<◌, ◌≡◌, refl, ap, sym, ◌∙◌, subst, Bool, true, false, List, [], ◌∷◌, ◌++◌, Option,
  none, some, arith, if◌then◌else◌,
}
use mathlib.Core.List.{append_assoc}
use tp1_so_2c.Comm.{MessageType, Message, Payload, AirlineStatus}
use tp1_so_2c.Display.{
  Display, Action, mvprintw, erase, refresh, sem_post, status_in_turn, needs, cities_done,
  airline_left, is_over, ninja, airline_initial_line, on_map_status, on_airline_status, on_message,
  at_end, Shown, ended, waiting, garbage, after_actions, is_end_output, run_output,
}

-- The payload of a message is that of its type.
abbrev pub HasPayload : MessageType → Payload → Type 0
HasPayload MessageType.map_status (Payload.map_status satisfied total) = Unit
HasPayload MessageType.map_status _ = ⊥
HasPayload MessageType.airline_status (Payload.airline_status s) = Unit
HasPayload MessageType.airline_status _ = ⊥
HasPayload _ _ = Unit

abbrev pub AllSet : List Message → Type 0
AllSet [] = Unit
AllSet (m ∷ ms) = HasPayload m.type m.payload × AllSet ms

-- An airline is written on its own line, behind those of the map and at most on line `k`; anything else
-- before that.
abbrev pub IsWithin : ℕ → Action → Type 0
IsWithin k (mvprintw line (airline_left s)) = (line ≡ airline_initial_line + s.id) × (line ≤ k)
IsWithin k (mvprintw line text) = line < airline_initial_line
IsWithin k _ = Unit

abbrev pub AllWithin : ℕ → List Action → Type 0
AllWithin k [] = Unit
AllWithin k (a ∷ actions) = IsWithin k a × AllWithin k actions

-- What is shown in all: the last two texts stand behind the lines of all the airlines.
abbrev pub IsTidy : ℕ → Shown → Type 0
IsTidy k (ended actions) =
    (d : Display) × (before : List Action) × (k ≤ d.max_line)
    × (actions ≡ before ++ at_end d)
    × AllWithin d.max_line before
IsTidy k (waiting d actions) = (k ≤ d.max_line) × AllWithin d.max_line actions
IsTidy k garbage = ⊥

IsWithin-grows : {k l : ℕ} (a : Action) → k ≤ l → IsWithin k a → IsWithin l a
IsWithin-grows (mvprintw line (airline_left s)) le w = (w.0, omega (arith, le, w.1))
IsWithin-grows (mvprintw line (status_in_turn n)) le w = w
IsWithin-grows (mvprintw line needs) le w = w
IsWithin-grows (mvprintw line (cities_done n m)) le w = w
IsWithin-grows (mvprintw line is_over) le w = w
IsWithin-grows (mvprintw line ninja) le w = w
IsWithin-grows erase le w = w
IsWithin-grows refresh le w = w
IsWithin-grows sem_post le w = w

AllWithin-append :
    {k l : ℕ} (first later : List Action)
    → k ≤ l
    → AllWithin k first
    → AllWithin l later
    → AllWithin l (first ++ later)
AllWithin-append [] later le f w = w
AllWithin-append (a ∷ first) later le f w =
    (IsWithin-grows a le f.0, AllWithin-append first later le f.1 w)

after_actions-IsTidy :
    {j k : ℕ} (first : List Action) (s : Shown)
    → j ≤ k
    → AllWithin k first
    → IsTidy k s
    → IsTidy j (after_actions first s)
after_actions-IsTidy {j} {k} first (ended later) le f (d, before, far, e, w) = (
  d,
  first ++ before,
  omega (arith, le, far),
  ap (λ x. first ++ x) e ∙ sym (append_assoc first before (at_end d)),
  AllWithin-append first before far f w,
)
after_actions-IsTidy {j} {k} first (waiting d later) le f (far, w) =
    (omega (arith, le, far), AllWithin-append first later far f w)
after_actions-IsTidy first garbage le f t = absurd t

-- What the body of the loop does at a message.
pub record Handled (d : Display) (result : Option (Display × List Action)) : Type 0 where
  pub display : Display
  pub actions : List Action
  pub made : result ≡ some (display, actions)
  pub grows : d.max_line ≤ display.max_line
  pub within : AllWithin display.max_line actions

Handled-nothing : (d : Display) → Handled d (some (d, []))
Handled-nothing d = record {
  display = d;
  actions = [];
  made = refl;
  grows = omega arith;
  within = tt;
}

Handled-airline : (d : Display) (s : AirlineStatus) → Handled d (some (on_airline_status d s))
Handled-airline d s = record {
  display = (on_airline_status d s).0;
  actions = (on_airline_status d s).1;
  made = refl;
  grows = ground arith;
  within = cleared d.first_of_turn;
}
  where
    cleared :
        (b : Bool)
        → AllWithin (on_airline_status d s).0.max_line (
            (if b then erase ∷ [] else [])
            ++ mvprintw (airline_initial_line + s.id) (airline_left s) ∷ refresh ∷ [])
    cleared true = (tt, ((refl, ground arith), (tt, tt)))
    cleared false = ((refl, ground arith), (tt, tt))

pub Handled-message :
    (d : Display) (t : MessageType) (p : Payload) → HasPayload t p → Handled d (on_message d t p)
unfolding on_message
Handled-message d MessageType.map_status (Payload.map_status satisfied total) h = record {
  display = (on_map_status d satisfied total).0;
  actions = (on_map_status d satisfied total).1;
  made = refl;
  grows = omega arith;
  within = (omega arith, (omega arith, (omega arith, (tt, (tt, tt)))));
}
Handled-message d MessageType.map_status Payload.unset h = absurd h
Handled-message d MessageType.map_status (Payload.destinations n to far) h = absurd h
Handled-message d MessageType.map_status (Payload.stock n delta) h = absurd h
Handled-message d MessageType.map_status (Payload.airline_status s) h = absurd h
Handled-message d MessageType.airline_status (Payload.airline_status s) h = Handled-airline d s
Handled-message d MessageType.airline_status Payload.unset h = absurd h
Handled-message d MessageType.airline_status (Payload.destinations n to far) h = absurd h
Handled-message d MessageType.airline_status (Payload.stock n delta) h = absurd h
Handled-message d MessageType.airline_status (Payload.map_status n m) h = absurd h
Handled-message d MessageType.none p h = Handled-nothing d
Handled-message d MessageType.continue p h = Handled-nothing d
Handled-message d MessageType.destinations p h = Handled-nothing d
Handled-message d MessageType.step p h = Handled-nothing d
Handled-message d MessageType.stock p h = Handled-nothing d
Handled-message d MessageType.airline_done p h = Handled-nothing d
Handled-message d MessageType.unload_stock p h = Handled-nothing d
Handled-message d MessageType.check_destinations p h = Handled-nothing d
Handled-message d MessageType.end p h = Handled-nothing d
Handled-message d MessageType.end_output p h = Handled-nothing d
Handled-message d MessageType.last p h = Handled-nothing d

-- `run_output` on messages whose payloads are those of their types: each airline has its own line, which is
-- behind the lines of the turn and of the map, and the last two texts stand behind the lines of all the
-- airlines. Nothing is read that no sender has set.
pub run_output-IsTidy :
    (d : Display) (ms : List Message) → AllSet ms → IsTidy d.max_line (run_output d ms)
unfolding run_output
run_output-IsTidy d [] h = (omega arith, tt)
run_output-IsTidy d (m ∷ ms) h =
    let s = Handled-message d m.type m.payload h.0 in
    last_or _ (is_end_output m.type) (
      subst
        (λ (o : Option (Display × List Action)). IsTidy d.max_line (elim o [
          | none ↦ garbage
          | some (d', actions) ↦ after_actions actions (run_output d' ms)
        ]))
        (sym s.made)
        (after_actions-IsTidy s.actions (run_output s.display ms) s.grows s.within
          (run_output-IsTidy s.display ms h.1)))
  where
    last_or :
        (next : Shown) (b : Bool)
        → IsTidy d.max_line next
        → IsTidy d.max_line (if b then ended (at_end d) else next)
    last_or next true t = (d, [], omega arith, refl, tt)
    last_or next false t = t
