-- ===== src/Airline/Delivery.antt =====
-- app/airline.c: an answer of the map reaches the thread that has asked for it.
use tp1_so_2c.Base.{
  ◌+◌, ◌≡◌, refl, ap, sym, ◌∙◌, subst, Bool, true, List, [], ◌∷◌, ◌++◌, map, Option, none, some,
  length, ◌>>=◌, get_elem?, set,
}
use tp1_so_2c.Base.Int.{pos}
use tp1_so_2c.Comm.{Message}
use tp1_so_2c.MessageQueue.{MessageQueue}
use tp1_so_2c.Plane.{Act}
use tp1_so_2c.Airline.{
  Airline, Thread, Sent, MapMessage, step, continue, other, destinations, unload_stock,
  destinations_message, deliver, redirect, redirect_stock_message, redirect_destinations_message,
  on_map_message, stock_message,
}
use tp1_so_2c.Airline.System.{Worker, System, thread_of, view, requeue, handled, Answers}
use tp1_so_2c.Airline.Fits.{owes, owing, Fits}
use tp1_so_2c.Airline.Sends.{is_asking, Delivered, answer-Fits}
use tp1_so_2c.Airline.Counts.{
  requeue_same, AllInPlace, Counted, Settles, owing-middle, middle, replaced, one,
}

get_middle :
    (before after : List Worker) (w : Worker)
    → get_elem? (map thread_of (before ++ w ∷ after)) (length before) ≡ some (thread_of w)
get_middle [] after w = refl
get_middle (x ∷ before) after w = get_middle before after w

set_middle :
    (before after : List Worker) (w w' : Worker)
    → set (map thread_of (before ++ w ∷ after)) (length before) (thread_of w')
      ≡ map thread_of (before ++ w' ∷ after)
set_middle [] after w w' = refl
set_middle (x ∷ before) after w w' = ap (λ ts. thread_of x ∷ ts) (set_middle before after w w')

requeue_middle :
    (before after : List Worker) (w : Worker) (q : MessageQueue)
    → let w' : Worker = record w { queue = q } in
      requeue (before ++ w ∷ after) (map thread_of (before ++ w' ∷ after)) ≡ before ++ w' ∷ after
requeue_middle [] after w q = ap (λ ws. record w { queue = q } ∷ ws) (requeue_same after)
requeue_middle (x ∷ before) after w q = ap (λ ws. x ∷ ws) (requeue_middle before after w q)

-- A thread whose part is the same takes another's place.
pub moved-Counted :
    (s : System) (before after : List Worker) (w w' : Worker) (requests : List Act)
    → Counted s
    → s.workers ≡ before ++ w ∷ after
    → Fits s.second w'
    → owes w ≡ true
    → owes w' ≡ true
    → Counted (record s { workers = before ++ w' ∷ after; requests = requests })
moved-Counted s before after w w' requests c e f due due' =
    let same : owing (before ++ w' ∷ after) ≡ owing s.workers =
      owing-middle before after w'
      ∙ ap (λ b. owing before + one b + owing after) (due' ∙ sym due)
      ∙ sym (owing-middle before after w)
      ∙ ap owing (sym e) in
    record {
      in_place = replaced s.second before after w w' (subst (AllInPlace s.second) e c.in_place) f;
      counts = c.counts ∙ ap pos (sym same);
      settles = subst (λ n. Settles n s.started s.second s.answers) (sym same) c.settles;
      numbered = c.numbered;
    }

redirect_middle :
    (s : System) (before after : List Worker) (w : Worker) (msg : Message) (q : MessageQueue)
    → s.workers ≡ before ++ w ∷ after
    → deliver msg (thread_of w) ≡ some (record { queue = q; done = w.thread.done })
    → redirect (view s) (length before) msg
      ≡ some
          (record (view s) { threads = map thread_of (before ++ record w { queue = q } ∷ after) })
unfolding redirect
redirect_middle s before after w msg q e went =
    let ts = map thread_of (before ++ w ∷ after) in
    let kept : Thread → Option Airline =
      λ t. some (record (view s) { threads = set ts (length before) t }) in
    ap (λ ws. redirect (view (record s { workers = ws })) (length before) msg) e
    ∙ ap (λ o. o >>= λ t. deliver msg t >>= kept) (get_middle before after w)
    ∙ ap (λ o. o >>= kept) went
    ∙ ap (λ l. some (record (view s) { threads = l }))
        (set_middle before after w (record w { queue = q }))

-- A round of `listen` that passes a message on to a thread.
abbrev passed : Option Airline → Option (Airline × List Sent × Bool)
passed o = o >>= λ a. some (a, [], true)

abbrev pub Goes : System → Option (Airline × List Sent × Bool) → Type 0
Goes s none = ⊥
Goes s (some (a, sent, go)) = (go ≡ true) × Counted (handled s a sent)

passed_on-Goes :
    (s : System) (before after : List Worker) (w : Worker) (msg : Message)
    → Counted s
    → s.workers ≡ before ++ w ∷ after
    → Delivered s.second w msg
    → Goes s (passed (redirect (view s) (length before) msg))
passed_on-Goes s before after w msg c e d =
    let w' : Worker = record w { queue = d.queue } in
    subst (λ r. Goes s (passed r)) (sym (redirect_middle s before after w msg d.queue e d.went))
      (
        refl,
        subst (λ ws. Counted (record s { workers = ws }))
            (sym (
              ap (λ ws. requeue ws (map thread_of (before ++ w' ∷ after))) e
              ∙ requeue_middle before after w d.queue))
            (moved-Counted s before after w w' s.requests c e d.fits d.due d.still_due),
      )

-- The answer to a request reaches its thread without a wait.
pub answer-Goes :
    (s : System) (before after : List Worker) (w : Worker) (msg : MapMessage)
    → Counted s
    → s.workers ≡ before ++ w ∷ after
    → Answers w (length before) msg
    → Goes s (on_map_message (view s) msg)
unfolding on_map_message redirect_stock_message redirect_destinations_message
answer-Goes s before after w (destinations m) c e (to, place, empty, idle) =
    let f = middle s.second before after w (subst (AllInPlace s.second) e c.in_place) in
    subst (λ i. Goes s (passed (redirect (view s) i (destinations_message m)))) (sym to)
      (passed_on-Goes s before after w (destinations_message m) c e
        (answer-Fits s.second w (destinations_message m) f (ap is_asking place) empty idle))
answer-Goes s before after w (unload_stock m) c e (to, place, empty, idle) =
    let f = middle s.second before after w (subst (AllInPlace s.second) e c.in_place) in
    subst (λ i. Goes s (passed (redirect (view s) i (stock_message m)))) (sym to)
      (passed_on-Goes s before after w (stock_message m) c e
        (answer-Fits s.second w (stock_message m) f (ap is_asking place) empty idle))
answer-Goes s before after w step c e never = absurd never
answer-Goes s before after w continue c e never = absurd never
answer-Goes s before after w other c e never = absurd never
