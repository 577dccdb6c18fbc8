-- ===== src/MessageQueue/Order.antt =====
-- Which messages come out of the queue of communication/msgqueue.c, and in which order.
use tp1_so_2c.Base.{◌≡◌, true, false, List, [], ◌∷◌, ◌++◌, arith, ◌∙◌, ap, sym, subst}
use mathlib.Core.List.{append_assoc, append-nil}
use tp1_so_2c.Comm.{Message}
use tp1_so_2c.MessageQueue.{MessageQueue, returns}
use tp1_so_2c.MessageQueue.Ring.{IsValid, contents}
use tp1_so_2c.MessageQueue.Fifo.{
  Fifo, Call, Reply, pushed, popped, push_call, push_wakes, pop_call, pop_wakes, peek_call,
  destroy_call, step, spec_step, view, step_refines, step-IsValid,
}

-- The message that a call has put into the queue.
abbrev taken_in : Call → Reply → List Message
taken_in (push_call m) (pushed (returns true)) = m ∷ []
taken_in (push_wakes m) (pushed (returns true)) = m ∷ []
taken_in _ _ = []

-- The message that a call has got out of the queue.
abbrev handed_out : Reply → List Message
handed_out (popped (returns m)) = m ∷ []
handed_out _ = []

-- All the messages that a sequence of calls puts in, all that it gets out, and the queue after it.
abbrev all_taken_in : MessageQueue → List Call → List Message
all_taken_in q [] = []
all_taken_in q (c ∷ cs) = taken_in c (step q c).1 ++ all_taken_in (step q c).0 cs

abbrev all_handed_out : MessageQueue → List Call → List Message
all_handed_out q [] = []
all_handed_out q (c ∷ cs) = handed_out (step q c).1 ++ all_handed_out (step q c).0 cs

abbrev after : MessageQueue → List Call → MessageQueue
after q [] = q
after q (c ∷ cs) = after (step q c).0 cs

abbrev KeepsOpen : List Call → Type 0
KeepsOpen [] = Unit
KeepsOpen (destroy_call ∷ cs) = ⊥
KeepsOpen (_ ∷ cs) = KeepsOpen cs

abbrev IsOpen : Call → Type 0
IsOpen destroy_call = ⊥
IsOpen _ = Unit

spec_order :
    (s : Fifo) (c : Call)
    → s.closing ≡ false
    → IsOpen c
    → ((s.items ++ taken_in c (spec_step s c).1)
        ≡ handed_out (spec_step s c).1 ++ (spec_step s c).0.items)
      × ((spec_step s c).0.closing ≡ false)
spec_order s (push_call m) e o = ground (arith, append-nil s.items)
spec_order s (push_wakes m) e o = ground (arith, append-nil s.items)
spec_order s pop_call e o = ground (arith, append-nil s.items)
spec_order s pop_wakes e o = ground (arith, append-nil s.items)
spec_order s peek_call e o = ground (arith, append-nil s.items)
spec_order s destroy_call e o = absurd o

step_order :
    {q : MessageQueue} (c : Call)
    → IsValid q
    → q.closing ≡ false
    → IsOpen c
    → ((contents q ++ taken_in c (step q c).1) ≡ handed_out (step q c).1 ++ contents (step q c).0)
      × ((step q c).0.closing ≡ false)
step_order {q} c v e o =
    subst
      (λ (p : Fifo × Reply).
        ((contents q ++ taken_in c p.1) ≡ handed_out p.1 ++ p.0.items) × (p.0.closing ≡ false))
      (sym (step_refines c v)) (spec_order (view q) c e o)

KeepsOpen-head : (c : Call) (cs : List Call) → KeepsOpen (c ∷ cs) → IsOpen c × KeepsOpen cs
KeepsOpen-head destroy_call cs k = absurd k
KeepsOpen-head (push_call m) cs k = (tt, k)
KeepsOpen-head (push_wakes m) cs k = (tt, k)
KeepsOpen-head pop_call cs k = (tt, k)
KeepsOpen-head pop_wakes cs k = (tt, k)
KeepsOpen-head peek_call cs k = (tt, k)

-- Two stretches of a history, one behind the other.
chain {ℓ} :
    {A : Type ℓ} (before put got between put' got' left : List A)
    → (before ++ put) ≡ got ++ between
    → (between ++ put') ≡ got' ++ left
    → (before ++ (put ++ put')) ≡ (got ++ got') ++ left
chain before put got between put' got' left p q =
    sym (append_assoc before put put')
    ∙ ap (λ l. l ++ put') p
    ∙ append_assoc got between put'
    ∙ ap (λ l. got ++ l) q
    ∙ sym (append_assoc got got' left)

-- On a valid queue that is not being destroyed, and through calls that do not destroy it: what was in
-- the queue, followed by what the calls put in, is what the calls got out, followed by what is left
-- in the queue. No message is lost, repeated or overtaken.
fifo_order :
    (cs : List Call) {q : MessageQueue}
    → IsValid q
    → q.closing ≡ false
    → KeepsOpen cs
    → (contents q ++ all_taken_in q cs) ≡ all_handed_out q cs ++ contents (after q cs)
fifo_order [] {q} v e k = append-nil (contents q)
fifo_order (c ∷ cs) {q} v e k =
    let (kept, still_open) = step_order c v e (KeepsOpen-head c cs k).0 in
    chain (contents q) (taken_in c (step q c).1) (handed_out (step q c).1) (contents (step q c).0)
      (all_taken_in (step q c).0 cs) (all_handed_out (step q c).0 cs)
      (contents (after (step q c).0 cs)) kept
      (fifo_order cs (step-IsValid c v) still_open (KeepsOpen-head c cs k).1)
