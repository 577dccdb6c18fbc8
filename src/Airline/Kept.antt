-- ===== src/Airline/Kept.antt =====
-- app/airline.c and app/plane.c: what every step of an airline with its planes keeps.
use tp1_so_2c.Base.{
  ℕ, zero, suc, ◌+◌, ◌≡◌, refl, ap, sym, ◌∙◌, subst, Bool, true, false, ◌⊎◌, inl, inr, List, [],
  ◌∷◌, ◌++◌, arith, if◌then◌else◌, ◌==◌,
}
use tp1_so_2c.Base.Int.{ℤ, pos, ◌-ℤ◌, is_zero_ℤ}
use tp1_so_2c.Models
use tp1_so_2c.Models.{Plane}
use tp1_so_2c.MessageQueue.Ring.{create-IsValid, create-contents}
use tp1_so_2c.Plane.{at_step, Act, ready, unload, check}
use tp1_so_2c.Airline.{Airline, Sent, send_ready_message, plane_ready}
use tp1_so_2c.Airline.Stage.{send_ready_message-fits}
use tp1_so_2c.Airline.System.{
  Worker, System, Step, Steps, stage, answer, read, act, done, more, start, bootstrap_planes, view,
  perform,
}
use tp1_so_2c.Airline.Fits.{owes_at, owes, owing, Fits}
use tp1_so_2c.Airline.Moves.{read-Fits, act-Fits, left_by}
use tp1_so_2c.Airline.Counts.{
  AllInPlace, Counted, Settles, owing-middle, middle, replaced, stage-GoesOn, GoesOn, stage_number,
  stage_kind, one,
}
use tp1_so_2c.Airline.Delivery.{Goes, answer-Goes, moved-Counted}

-- `app_airline_plane_ready` when `n` other planes are missing.
abbrev reported : Airline → ℕ → Airline × List Sent
reported a zero =
    let a' = record a { planes_left_in_stage = pos 0 } in (a', send_ready_message a' ∷ [])
reported a (suc n) = (record a { planes_left_in_stage = pos (suc n) }, [])

less_one : (n : ℕ) → pos (suc n) -ℤ pos 1 ≡ pos n
unfolding ◌-ℤ◌
less_one n = ground arith

-- `app_airline_plane_ready` when `planesLeftInStage` is counted down.
abbrev counted_down : Airline → ℤ → Airline × List Sent
counted_down a left =
    let a' = record a { planes_left_in_stage = left } in
    if is_zero_ℤ left
    then if a.exit_state == 1 then (a', []) else (a', send_ready_message a' ∷ [])
    else (a', [])

none_missing : (s : System) (n : ℕ) → counted_down (view s) (pos n) ≡ reported (view s) n
none_missing s zero = refl
none_missing s (suc n) = refl

plane_ready-reported :
    (s : System) (n : ℕ) → s.left ≡ pos (suc n) → plane_ready (view s) ≡ reported (view s) n
unfolding plane_ready
plane_ready-reported s n e =
    ap (λ l. counted_down (view s) (l -ℤ pos 1)) e
    ∙ ap (counted_down (view s)) (less_one n)
    ∙ none_missing s n

reported_left : (a : Airline) (n : ℕ) → (reported a n).0.planes_left_in_stage ≡ pos n
reported_left a zero = refl
reported_left a (suc n) = refl

reported-Settles :
    (a : Airline) (n started : ℕ) (first : Bool) (answers : List Sent)
    → Settles (suc n) started first answers
    → a.stage ≡ stage_number first
    → Settles n started first ((reported a n).1 ++ answers)
reported-Settles a zero started first answers (e, alternates) h =
    (e, (send_ready_message-fits _ ∙ ap (λ k. k == 1) h ∙ stage_kind first, alternates))
reported-Settles a (suc n) started first answers settles h = settles

-- A stage that is not over has a number.
stage_numbered :
    (n started k : ℕ) (first : Bool) (answers : List Sent)
    → Settles (suc n) started first answers
    → (started ≡ 0) ⊎ (k ≡ stage_number first)
    → k ≡ stage_number first
stage_numbered n started k first answers (e, _) (inl zero_started) = cc
stage_numbered n started k first answers settles (inr h) = h

-- The report of a thread.
report-Counted :
    (s : System) (before after : List Worker) (w w' : Worker)
    → Counted s
    → s.workers ≡ before ++ w ∷ after
    → Fits s.second w'
    → owes w ≡ true
    → owes w' ≡ false
    → Counted (perform ready (record s { workers = before ++ w' ∷ after }))
report-Counted s before after w w' c e f due due' =
    let n = owing (before ++ w' ∷ after) in
    let s' : System = record s { workers = before ++ w' ∷ after } in
    let fewer : owing s.workers ≡ suc n =
      ap owing e
      ∙ owing-middle before after w
      ∙ ap (λ b. owing before + one b + owing after) due
      ∙ omega (arith, owing-middle before after w', ap one due') in
    let settles = subst (λ k. Settles k s.started s.second s.answers) fewer c.settles in
    subst
      (λ (r : Airline × List Sent).
        Counted (record s' { left = r.0.planes_left_in_stage; answers = r.1 ++ s.answers }))
      (sym (plane_ready-reported s' n (c.counts ∙ ap pos fewer)))
      (record {
        in_place = replaced s.second before after w w' (subst (AllInPlace s.second) e c.in_place) f;
        counts = reported_left (view s') n;
        settles =
            reported-Settles (view s') n s.started s.second s.answers settles
              (stage_numbered n s.started s.stage s.second s.answers settles c.numbered);
        numbered = c.numbered;
      })

acted-Counted :
    (s : System) (before after : List Worker) (w : Worker) (a : Act) (acts : List Act)
    → Counted s
    → s.workers ≡ before ++ w ∷ after
    → Fits s.second (record w { todo = acts })
    → owes w ≡ true
    → owes (record w { todo = acts }) ≡ left_by a
    → Counted (perform a (record s { workers = before ++ record w { todo = acts } ∷ after }))
acted-Counted s before after w ready acts c e f due due' =
    report-Counted s before after w _ c e f due due'
acted-Counted s before after w (unload m) acts c e f due due' =
    moved-Counted s before after w _ (unload m ∷ s.requests) c e f due due'
acted-Counted s before after w (check m) acts c e f due due' =
    moved-Counted s before after w _ (check m ∷ s.requests) c e f due due'

pub Step-Counted : {s t : System} → Step s t → Counted s → Counted t
Step-Counted {s} (stage e went) c = (subst (GoesOn s) went (stage-GoesOn s c e)).1
Step-Counted {s} (answer before after w msg e answers went) c =
    (subst (Goes s) went (answer-Goes s before after w msg c e answers)).1
Step-Counted {s} (read {q} {t} {acts} before after w msg e idle reads popped goes) c =
    let f = middle s.second before after w (subst (AllInPlace s.second) e c.in_place) in
    let (f', due, due') = read-Fits s.second w q msg t acts f idle reads popped goes in
    moved-Counted s before after w _ s.requests c e f' due due'
Step-Counted {s} (act before after w a acts e todo) c =
    let f = middle s.second before after w (subst (AllInPlace s.second) e c.in_place) in
    let (f', due, due') = act-Fits s.second w a acts f todo in
    acted-Counted s before after w a acts c e f' due due'

bootstrap_planes-AllInPlace :
    (id : ℕ) (planes : List Plane)
    → let ws = bootstrap_planes (record { id = id; planes = planes }) in
      AllInPlace false ws × (owing ws ≡ 0)
unfolding bootstrap_planes
bootstrap_planes-AllInPlace id [] = (tt, refl)
bootstrap_planes-AllInPlace id (p ∷ ps) =
    let (fs, none_owes) = bootstrap_planes-AllInPlace id ps in
    let rest = owing (bootstrap_planes (record { id = id; planes = ps })) in
    (
      ((create-IsValid, (refl, create-contents, tt)), fs),
      ap (λ ms. if owes_at at_step ms [] then suc rest else rest) create-contents ∙ none_owes,
    )

start-Counted : (a : Models.Airline) → Counted (start a)
start-Counted a =
    let (fs, none_owes) = bootstrap_planes-AllInPlace a.id a.planes in
    record {
      in_place = fs;
      counts = ap pos (sym none_owes);
      settles = subst (λ n. Settles n 0 false []) (sym none_owes) (refl, refl);
      numbered = inl refl;
    }

pub run-Counted : {s t : System} → Steps s t → Counted s → Counted t
run-Counted done c = c
run-Counted (more x xs) c = run-Counted xs (Step-Counted x c)

-- In every state that an airline and its planes reach before the end message, `planesLeftInStage` is the
-- number of planes that have still a part to play in the stage: one to read a message, to report, or to
-- wait for the map, or one that has left or faulted before its report. The map has got one answer for
-- every stage it has sent, but for the last while that number is not 0; the answers are by turns the
-- report of a first stage and the status of a second one.
pub Steps-Counted : (a : Models.Airline) (s : System) → Steps (start a) s → Counted s
Steps-Counted a s r = run-Counted r (start-Counted a)
