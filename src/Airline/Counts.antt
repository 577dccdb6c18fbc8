-- ===== src/Airline/Counts.antt =====
-- app/airline.c and app/plane.c: `planesLeftInStage`, and the answers of the airline to the map.
use tp1_so_2c.Base.{
  ℕ, zero, suc, ◌+◌, ◌≡◌, refl, ap, ap₂, sym, ◌∙◌, subst, Bool, true, false, not, ◌⊎◌, inr, List,
  [], ◌∷◌, ◌++◌, map, Option, none, some, arith, length, if◌then◌else◌, ◌==◌, ◌>>=◌,
}
use tp1_so_2c.Base.Int.{pos}
use tp1_so_2c.Comm.{Message}
use tp1_so_2c.MessageQueue.{push}
use tp1_so_2c.Airline.{Airline, Sent, count_flying, broadcast, start_phase, on_map_message}
use tp1_so_2c.Airline.Stage.{is_status, send_ready_message-fits}
use tp1_so_2c.Airline.Stage
use tp1_so_2c.Airline.Broadcast.{AllValid, AllHaveRoom, reach_all, reach_all_lem}
use tp1_so_2c.Airline.System.{Worker, System, thread_of, view, requeue, handled, stage_message}
use tp1_so_2c.Airline.Fits.{owes, owing, Fits}
use tp1_so_2c.Airline.Sends.{next_signal, next-Fits}

abbrev pub AllInPlace : Bool → List Worker → Type 0
AllInPlace first [] = Unit
AllInPlace first (w ∷ ws) = Fits first w × AllInPlace first ws

abbrev pub one : Bool → ℕ
one b = if b then 1 else 0

pub owing-middle :
    (before after : List Worker) (w : Worker)
    → owing (before ++ w ∷ after) ≡ owing before + one (owes w) + owing after
owing-middle [] after w = ground arith
owing-middle (x ∷ before) after w = ground (arith, owing-middle before after w)

pub middle :
    (first : Bool) (before after : List Worker) (w : Worker)
    → AllInPlace first (before ++ w ∷ after)
    → Fits first w
middle first [] after w fs = fs.0
middle first (x ∷ before) after w fs = middle first before after w fs.1

pub replaced :
    (first : Bool) (before after : List Worker) (w w' : Worker)
    → AllInPlace first (before ++ w ∷ after)
    → Fits first w'
    → AllInPlace first (before ++ w' ∷ after)
replaced first [] after w w' fs f = (f, fs.1)
replaced first (x ∷ before) after w w' fs f = (fs.0, replaced first before after w w' fs.1 f)

-- How the answers alternate: the newest answered the first stage, or the second one.
abbrev pub Alternates : Bool → List Sent → Type 0
Alternates first [] = first ≡ false
Alternates first (s ∷ ss) = (is_status s ≡ not first) × Alternates (not first) ss

-- The answers to `started` stages, of which `n` planes have still the last one to play.
abbrev pub Settles : ℕ → ℕ → Bool → List Sent → Type 0
Settles zero started first answers = (started ≡ length answers) × Alternates first answers
Settles (suc n) started first answers =
    (started ≡ suc (length answers)) × Alternates (not first) answers

abbrev pub stage_number : Bool → ℕ
stage_number first = if first then 0 else 1

-- Every thread is in its place in the stage; `planesLeftInStage` counts those that have still a part to
-- play; every stage but one that is played has got its answer.
pub record Counted (s : System) : Type 0 where
  pub in_place : AllInPlace s.second s.workers
  pub counts : s.left ≡ pos (owing s.workers)
  pub settles : Settles (owing s.workers) s.started s.second s.answers
  pub numbered : (s.started ≡ 0) ⊎ (s.stage ≡ stage_number s.second)

none_owes : (b : Bool) (n : ℕ) → (if b then suc n else n) ≡ 0 → (b ≡ false) × (n ≡ 0)
none_owes b n e = ground arith

counted_on :
    (b d : Bool) (m n : ℕ) → b ≡ not d → m ≡ n → (if b then suc m else m) ≡ (if d then n else suc n)
counted_on b d m n e h = ground arith

-- When no thread has a part left, the next stage reaches those that are not done.
abbrev Ready : Bool → List Worker → Type 0
Ready first ws =
    let ts = map thread_of ws in
    let ws' = requeue ws (reach_all (next_signal first) ts) in
    AllValid ts × AllHaveRoom ts × AllInPlace (not first) ws' × (owing ws' ≡ count_flying ts)

next_all : (first : Bool) (ws : List Worker) → AllInPlace first ws → owing ws ≡ 0 → Ready first ws
unfolding count_flying
next_all first [] fs e = (tt, tt, tt, refl)
next_all first (w ∷ ws) (f, fs) e =
    let (rests, none_else) = none_owes (owes w) (owing ws) e in
    let (room, f', due) = next-Fits first w f rests in
    let (valid, rooms, fs', counts) = next_all first ws fs none_else in
    (
      (f.0, valid),
      (room, rooms),
      (f', fs'),
      counted_on _ w.thread.done _ (count_flying (map thread_of ws)) due counts,
    )

-- A process that has started the next stage, with the outcome of a round of `listen`.
abbrev pub begun : System → Airline → List Sent → System
begun s a sent = record (handled s a sent) { started = suc s.started; second = not s.second }

abbrev pub GoesOn : System → Option (Airline × List Sent × Bool) → Type 0
GoesOn s none = ⊥
GoesOn s (some (a, sent, go)) = (go ≡ true) × Counted (begun s a sent)

pub requeue_same : (ws : List Worker) → requeue ws (map thread_of ws) ≡ ws
requeue_same [] = refl
requeue_same (w ∷ ws) = ap (λ l. w ∷ l) (requeue_same ws)

none_flies : (d : Bool) (n : ℕ) → (if d then n else suc n) ≡ 0 → (d ≡ true) × (n ≡ 0)
none_flies d n e = ground arith

all_done :
    (ws : List Worker) (msg : Message)
    → count_flying (map thread_of ws) ≡ 0
    → reach_all msg (map thread_of ws) ≡ map thread_of ws
unfolding count_flying
all_done [] msg e = refl
all_done (w ∷ ws) msg e =
    let (d, rest) = none_flies w.thread.done (count_flying (map thread_of ws)) e in
    ap₂ ◌∷◌
      (ap (λ b. if b then thread_of w else record (thread_of w) { queue = (push w.queue msg).0 }) d)
      (all_done ws msg rest)

settled :
    (n started : ℕ) (first : Bool) (answers : List Sent)
    → Settles n started first answers
    → started ≡ length answers
    → (n ≡ 0) × Alternates first answers
settled zero started first answers (e, alternates) h = (refl, alternates)
settled (suc n) started first answers (e, _) h = absurd (omega arith)

not-not : (b : Bool) → b ≡ not (not b)
not-not true = refl
not-not false = refl

pub stage_kind : (b : Bool) → (stage_number b == 1) ≡ not b
stage_kind true = refl
stage_kind false = refl

-- One more stage is answered at once, or will be.
answered_now :
    (n started : ℕ) (first : Bool) (s : Sent) (answers : List Sent)
    → n ≡ 0
    → started ≡ suc (length answers)
    → is_status s ≡ not first
    → Alternates (not first) answers
    → Settles n started first (s ∷ answers)
answered_now zero started first s answers e h kind alternates = (h, (kind, alternates))
answered_now (suc n) started first s answers e h kind alternates = cc

answered_later :
    (n m started : ℕ) (first : Bool) (answers : List Sent)
    → n ≡ suc m
    → started ≡ length answers
    → Alternates first answers
    → Settles n (suc started) (not first) answers
answered_later zero m started first answers e h alternates = cc
answered_later (suc n) m started first answers e h alternates =
    (ap suc h, subst (λ b. Alternates b answers) (not-not first) alternates)

-- `start_phase` in a stage with `n` planes that are not done.
phase-GoesOn :
    (s : System) (n : ℕ)
    → n ≡ count_flying (map thread_of s.workers)
    → Ready s.second s.workers
    → s.started ≡ length s.answers
    → Alternates s.second s.answers
    → GoesOn s (
        Stage.started
          (record (view s) { stage = stage_number (not s.second) })
          n
          (some (reach_all (next_signal s.second) (map thread_of s.workers)))
        >>= λ r. some (r.0, r.1, true))
phase-GoesOn s zero n (valid, rooms, in_place, counts) e alternates =
    let same = all_done s.workers (next_signal s.second) (sym n) in
    let none_owes = ap (λ ts. owing (requeue s.workers ts)) (sym same) ∙ counts ∙ sym n in
    (
      refl,
      record {
        in_place = subst (λ ts. AllInPlace (not s.second) (requeue s.workers ts)) same in_place;
        counts = ap pos (sym none_owes);
        settles =
            answered_now _ (suc s.started) (not s.second) _ s.answers none_owes (ap suc e)
              (send_ready_message-fits _ ∙ stage_kind (not s.second))
              (subst (λ b. Alternates b s.answers) (not-not s.second) alternates);
        numbered = inr refl;
      },
    )
phase-GoesOn s (suc m) n (valid, rooms, in_place, counts) e alternates = (
  refl,
  record {
    in_place = in_place;
    counts = ap pos (n ∙ sym counts);
    settles = answered_later _ m s.started s.second s.answers (counts ∙ sym n) e alternates;
    numbered = inr refl;
  },
)

stage_started :
    (a : Airline) (first : Bool)
    → on_map_message a (stage_message first) ≡ (
        Stage.started
          (record a { stage = stage_number (not first) })
          (count_flying a.threads)
          (broadcast a.threads (next_signal first))
        >>= λ r. some (r.0, r.1, true))
unfolding on_map_message start_phase
stage_started a true = refl
stage_started a false = refl

-- The next stage that the map sends is started without a wait.
pub stage-GoesOn :
    (s : System)
    → Counted s
    → s.started ≡ length s.answers
    → GoesOn s (on_map_message (view s) (stage_message s.second))
stage-GoesOn s c e =
    let (none_owes, alternates) =
      settled (owing s.workers) s.started s.second s.answers c.settles e in
    let ready = next_all s.second s.workers c.in_place none_owes in
    let (went, _, _) =
      reach_all_lem (next_signal s.second) (map thread_of s.workers) ready.0 ready.1 in
    subst (GoesOn s)
      (sym (
        stage_started (view s) s.second
        ∙ ap
            (λ r.
              Stage.started (record (view s) { stage = stage_number (not s.second) })
                (count_flying (map thread_of s.workers)) r
              >>= λ r'. some (r'.0, r'.1, true))
            went))
      (phase-GoesOn s (count_flying (map thread_of s.workers)) refl ready e alternates)
