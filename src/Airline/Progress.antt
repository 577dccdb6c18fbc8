-- ===== src/Airline/Progress.antt =====
-- app/airline.c and app/plane.c: nobody waits for good in a stage.
use tp1_so_2c.Base.{
  ℕ, zero, suc, ◌≡◌, refl, ap, sym, ◌∙◌, subst, Bool, true, ◌⊎◌, inl, inr, List, [], ◌∷◌, ◌++◌,
  Option, none, some, length, if◌then◌else◌,
}
use mathlib.Core.List.{append_assoc}
use tp1_so_2c.Models
use tp1_so_2c.Airline.{Airline, Sent, MapMessage, on_map_message}
use tp1_so_2c.Airline.System.{Worker, System, Steps, done, start, view, stage_message, Answers}
use tp1_so_2c.Airline.Fits.{owing}
use tp1_so_2c.Airline.Counts.{Counted, Settles, GoesOn, stage-GoesOn}
use tp1_so_2c.Airline.Kept.{Steps-Counted}
use tp1_so_2c.Airline.Delivery.{Goes, answer-Goes}
use tp1_so_2c.Airline.Rests.{Stays, Rests, comes_to_rest, append_steps, AllOwn, append_steps-AllOwn}

abbrev pub AllRest : List Worker → Type 0
AllRest [] = Unit
AllRest (w ∷ ws) = Rests w × AllRest ws

abbrev pub SomeStays : List Worker → Type 0
SomeStays [] = ⊥
SomeStays (w ∷ ws) = Stays w ⊎ SomeStays ws

-- A state that the threads reach by their own steps, in which each has played its part or stays. If none
-- stays, the map has its answers.
pub record Quiet (s : System) : Type 0 where
  pub system : System
  pub steps : Steps s system
  pub own : AllOwn steps
  pub same : system.started ≡ s.started
  pub rest : AllRest system.workers
  pub settled : (system.started ≡ length system.answers) ⊎ SomeStays system.workers

append-AllRest : (ws vs : List Worker) → AllRest ws → AllRest vs → AllRest (ws ++ vs)
append-AllRest [] vs r r' = r'
append-AllRest (w ∷ ws) vs r r' = (r.0, append-AllRest ws vs r.1 r')

played_or_stays : (ws : List Worker) → AllRest ws → (owing ws ≡ 0) ⊎ SomeStays ws
played_or_stays [] r = inl refl
played_or_stays (w ∷ ws) (inr stays, r) = inr (inl stays)
played_or_stays (w ∷ ws) (inl played, r) = elim (played_or_stays ws r) [
  | inl none_owes ↦ inl (ap (λ b. if b then suc (owing ws) else owing ws) played ∙ none_owes)
  | inr stays ↦ inr (inr stays)
]

all_answered :
    (n started : ℕ) (first : Bool) (answers : List Sent)
    → Settles n started first answers
    → n ≡ 0
    → started ≡ length answers
all_answered zero started first answers (e, _) h = e
all_answered (suc n) started first answers settles h = cc

all_still : (s : System) → Counted s → AllRest s.workers → Quiet s
all_still s c r = record {
  system = s;
  steps = done;
  own = tt;
  same = refl;
  rest = r;
  settled = elim (played_or_stays s.workers r) [
    | inl none_owes ↦ inl (all_answered _ s.started s.second s.answers c.settles none_owes)
    | inr stays ↦ inr stays
  ];
}

-- One thread after the other comes to rest.
all-Quiet :
    (after before : List Worker) (s : System)
    → Counted s
    → s.workers ≡ before ++ after
    → AllRest before
    → Quiet s
all-Quiet [] before s c e r = all_still s c (subst AllRest (sym e) (append-AllRest before [] r tt))
all-Quiet (w ∷ after) before s c e r =
    let x = comes_to_rest s before after w c e in
    let y =
      all-Quiet after (before ++ x.worker ∷ []) x.system x.counted
        (x.workers ∙ sym (append_assoc before (x.worker ∷ []) after))
        (append-AllRest before (x.worker ∷ []) r (x.holds, tt)) in
    record {
      system = y.system;
      steps = append_steps x.steps y.steps;
      own = append_steps-AllOwn x.steps y.steps x.own y.own;
      same = y.same ∙ x.same;
      rest = y.rest;
      settled = y.settled;
    }

-- From every state that an airline and its planes reach before the end message, steps of the planes alone, in
-- which the map sends nothing, lead to a state in which the map has got an answer to every stage it has sent, or some plane waits for its
-- answer to a request, or has left or faulted before its report.
pub planes-Quiet : (a : Models.Airline) (s : System) → Steps (start a) s → Quiet s
planes-Quiet a s r = all-Quiet s.workers [] s (Steps-Counted a s r) refl tt

-- What the map may send: the next stage when the last one is answered, or the answer to a request.
pub data Due (s : System) : MapMessage → Type 0 where
  stage : s.started ≡ length s.answers → Due s (stage_message s.second)
  answer :
      {msg : MapMessage} (before after : List Worker) (w : Worker)
      → s.workers ≡ before ++ w ∷ after
      → Answers w (length before) msg
      → Due s msg

went_on :
    (s : System) (o : Option (Airline × List Sent × Bool))
    → GoesOn s o
    → (a : Airline) × (sent : List Sent) × (o ≡ some (a, sent, true))
went_on s none goes = absurd goes
went_on s (some (a, sent, go)) (e, _) = (a, sent, ap (λ b. some (a, sent, b)) e)

went :
    (s : System) (o : Option (Airline × List Sent × Bool))
    → Goes s o
    → (a : Airline) × (sent : List Sent) × (o ≡ some (a, sent, true))
went s none goes = absurd goes
went s (some (a, sent, go)) (e, _) = (a, sent, ap (λ b. some (a, sent, b)) e)

-- In every state that an airline and its planes reach before the end message, the loop of `listen` takes
-- each message that is due and goes on: no queue is full and no index is out of range.
pub listen_goes_on :
    (a : Models.Airline) (s : System) (msg : MapMessage)
    → Steps (start a) s
    → Due s msg
    → (a' : Airline) × (sent : List Sent) × (on_map_message (view s) msg ≡ some (a', sent, true))
listen_goes_on a s msg r (stage e) = went_on s _ (stage-GoesOn s (Steps-Counted a s r) e)
listen_goes_on a s msg r (answer before after w e answers) =
    went s _ (answer-Goes s before after w msg (Steps-Counted a s r) e answers)
