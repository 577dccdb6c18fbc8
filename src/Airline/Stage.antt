-- ===== src/Airline/Stage.antt =====
-- app/airline.c: how often an airline answers in a stage.
use tp1_so_2c.Base.{
  ℕ, zero, suc, ◌+◌, ◌≡◌, refl, ap, ap₂, sym, ◌∙◌, Bool, true, false, List, [], ◌∷◌, ◌++◌, Option,
  none, some, arith, leb, length, if◌then◌else◌, length-append, ◌>>=◌, subst, ◌==◌, get_elem?, set,
}
use tp1_so_2c.Base.Int.{ℤ, pos, negsuc, ◌-ℤ◌, is_zero_ℤ}
use tp1_so_2c.Comm.{Message}
use tp1_so_2c.Airline.{
  Airline, Thread, Sent, airline_done, airline_status, count_flying, send_ready_message,
  start_phase, plane_ready, broadcast,
}

-- What the threads of the planes do in a stage: one of them finishes, or reports itself ready.
pub data Event : Type 0 where
  finish : ℕ → Event
  report : Event

abbrev pub finish_thread : List Thread → ℕ → List Thread
finish_thread ts i = elim (get_elem? ts i) [
  | none ↦ ts
  | some t ↦ set ts i (record t { done = true })
]

abbrev pub on_event : Airline → Event → Airline × List Sent
on_event a (finish i) = (record a { threads = finish_thread a.threads i }, [])
on_event a report = plane_ready a

unfoldable pub run_stage : Airline → List Event → Airline × List Sent
run_stage a [] = (a, [])
run_stage a (e ∷ es) =
    let (a', sent) = on_event a e in let rest = run_stage a' es in (rest.0, sent ++ rest.1)

unfoldable pub reports : List Event → ℕ
reports [] = 0
reports (finish i ∷ es) = reports es
reports (report ∷ es) = suc (reports es)

-- How many answers are due when `left` planes are missing and `n` report themselves.
abbrev pub due : ℤ → ℕ → ℕ
due (pos zero) n = 0
due (pos (suc k)) n = if leb (suc k) n then 1 else 0
due (negsuc k) n = 0

due-zero : (left : ℤ) → due left 0 ≡ 0
due-zero (pos zero) = refl
due-zero (pos (suc k)) = ground arith
due-zero (negsuc k) = refl

-- A report is answered when no plane is missing after it.
abbrev answers_at : ℤ → ℕ
answers_at left = if is_zero_ℤ left then 1 else 0

-- With one report less to come, an answer is sent or is still due.
due-suc : (left : ℤ) (n : ℕ) → due left (suc n) ≡ answers_at (left -ℤ pos 1) + due (left -ℤ pos 1) n
unfolding ◌-ℤ◌
due-suc (pos zero) n = refl
due-suc (pos (suc zero)) n = ground arith
due-suc (pos (suc (suc k))) n = ground arith
due-suc (negsuc k) n = ground arith

plane_ready_lem :
    (a : Airline)
    → a.exit_state ≡ 0
    → (length (plane_ready a).1 ≡ answers_at (a.planes_left_in_stage -ℤ pos 1))
      × ((plane_ready a).0.planes_left_in_stage ≡ a.planes_left_in_stage -ℤ pos 1)
      × ((plane_ready a).0.exit_state ≡ 0)
unfolding plane_ready
plane_ready_lem a e = ground arith

-- Through any events of a stage, the answers are those that are due for the reports among the events.
pub run_stage-due :
    (a : Airline) (es : List Event)
    → a.exit_state ≡ 0
    → length (run_stage a es).1 ≡ due a.planes_left_in_stage (reports es)
unfolding run_stage reports
run_stage-due a [] e = sym (due-zero a.planes_left_in_stage)
run_stage-due a (finish i ∷ es) e =
    run_stage-due (record a { threads = finish_thread a.threads i }) es e
run_stage-due a (report ∷ es) e =
    let (sent, left, exit) = plane_ready_lem a e in
    length-append (plane_ready a).1 (run_stage (plane_ready a).0 es).1
    ∙ ap₂ (λ m n. m + n) sent
        (run_stage-due (plane_ready a).0 es exit ∙ ap (λ k. due k (reports es)) left)
    ∙ sym (due-suc a.planes_left_in_stage (reports es))

-- Whether a message is the status, which answers the second stage.
abbrev pub is_status : Sent → Bool
is_status airline_done = false
is_status (airline_status s) = true

abbrev pub AllFit : ℕ → List Sent → Type 0
AllFit stage [] = Unit
AllFit stage (s ∷ ss) = (is_status s ≡ (stage == 1)) × AllFit stage ss

pub send_ready_message-fits : (a : Airline) → is_status (send_ready_message a) ≡ (a.stage == 1)
unfolding send_ready_message
send_ready_message-fits a = ground arith

AllFit-append :
    (stage : ℕ) (ss ts : List Sent) → AllFit stage ss → AllFit stage ts → AllFit stage (ss ++ ts)
AllFit-append stage [] ts fs ft = ft
AllFit-append stage (s ∷ ss) ts fs ft = (fs.0, AllFit-append stage ss ts fs.1 ft)

-- The end of `plane_ready`, by the outcome of its two tests.
ready_after-AllFit :
    (a : Airline) (last exits : Bool)
    → let r : Airline × List Sent =
        if last then if exits then (a, []) else (a, send_ready_message a ∷ []) else (a, []) in
      AllFit a.stage r.1 × (r.0.stage ≡ a.stage)
ready_after-AllFit a true true = (tt, refl)
ready_after-AllFit a true false = ((send_ready_message-fits a, tt), refl)
ready_after-AllFit a false exits = (tt, refl)

plane_ready-AllFit :
    (a : Airline) → AllFit a.stage (plane_ready a).1 × ((plane_ready a).0.stage ≡ a.stage)
unfolding plane_ready
plane_ready-AllFit a =
    let left = a.planes_left_in_stage -ℤ pos 1 in
    ready_after-AllFit (record a { planes_left_in_stage = left }) (is_zero_ℤ left)
      (a.exit_state == 1)

run_stage-AllFit : (a : Airline) (es : List Event) → AllFit a.stage (run_stage a es).1
unfolding run_stage
run_stage-AllFit a [] = tt
run_stage-AllFit a (finish i ∷ es) =
    run_stage-AllFit (record a { threads = finish_thread a.threads i }) es
run_stage-AllFit a (report ∷ es) =
    let (fits, same) = plane_ready-AllFit a in
    AllFit-append a.stage (plane_ready a).1 (run_stage (plane_ready a).0 es).1 fits (
      subst (λ k. AllFit k (run_stage (plane_ready a).0 es).1) same
        (run_stage-AllFit (plane_ready a).0 es))

-- What is claimed of the start of a stage with `n` planes that are not done.
abbrev OneAnswer : ℕ → ℕ → List Event → Option (Airline × List Sent) → Type 0
OneAnswer stage n es none = Unit
OneAnswer stage n es (some (a, sent)) =
    (length (sent ++ (run_stage a es).1) ≡ (if leb n (reports es) then 1 else 0))
    × AllFit stage (sent ++ (run_stage a es).1)

-- `start_phase` when `n` planes are not done and the broadcast has the outcome `r`.
abbrev pub started : Airline → ℕ → Option (List Thread) → Option (Airline × List Sent)
started a n r =
    let a' = record a { planes_left_in_stage = pos n } in
    if is_zero_ℤ (pos n)
    then some (a', send_ready_message a' ∷ [])
    else (r >>= λ ts. some (record a' { threads = ts }, []))

started-OneAnswer :
    (a : Airline) (n : ℕ) (r : Option (List Thread)) (es : List Event)
    → a.exit_state ≡ 0
    → OneAnswer a.stage n es (started a n r)
started-OneAnswer a zero r es e =
    let a' = record a { planes_left_in_stage = pos 0 } in
    (ground (arith, run_stage-due a' es e), (send_ready_message-fits a', run_stage-AllFit a' es))
started-OneAnswer a (suc n) none es e = tt
started-OneAnswer a (suc n) (some ts) es e =
    let a' = record a { threads = ts; planes_left_in_stage = pos (suc n) } in
    (run_stage-due a' es e, run_stage-AllFit a' es)

start_phase-OneAnswer :
    (a : Airline) (msg : Message) (es : List Event)
    → a.exit_state ≡ 0
    → OneAnswer a.stage (count_flying a.threads) es (start_phase a msg)
unfolding start_phase
start_phase-OneAnswer a msg es e =
    started-OneAnswer a (count_flying a.threads) (broadcast a.threads msg) es e

-- When an airline starts a stage and the threads of its planes then finish or report themselves ready
-- in any order, the map gets one answer if at least as many reports come as there were planes that
-- were not done, else none; and an answer is the status exactly in the second stage.
pub start_phase_lem :
    (a : Airline) (msg : Message) (es : List Event) (a' : Airline) (sent : List Sent)
    → a.exit_state ≡ 0
    → start_phase a msg ≡ some (a', sent)
    → (length (sent ++ (run_stage a' es).1)
        ≡ (if leb (count_flying a.threads) (reports es) then 1 else 0))
      × AllFit a.stage (sent ++ (run_stage a' es).1)
start_phase_lem a msg es a' sent e started =
    subst (OneAnswer a.stage (count_flying a.threads) es) started (start_phase-OneAnswer a msg es e)
