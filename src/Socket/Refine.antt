-- ===== src/Socket/Refine.antt =====
-- ipc/socket.c: the loops hide the calls of the system that are tried again.
use tp1_so_2c.Base.{
  ℕ, zero, suc, ◌≡◌, refl, ap, ◌∙◌, Bool, true, false, List, [], ◌∷◌, ◌++◌, length, replicate, take,
  if◌then◌else◌,
}
use tp1_so_2c.Base.Int.{pos, negsuc}
use tp1_so_2c.Socket.{Call, succeeds, again, breaks, Outcome, returns, sleeps, ipc_write, ipc_read}

-- A write of a message or a read into a buffer, in which `n` calls of the system are tried again before
-- one succeeds or fails.
data Use : Type 0 where
  writes : (n : ℕ) → (ok : Bool) → List ℕ → Use
  reads : (n : ℕ) → (ok : Bool) → ℕ → Use

abbrev results : ℕ → Bool → List Call
results n ok = replicate n again ++ (if ok then succeeds else breaks) ∷ []

abbrev step : List (List ℕ) → Use → List (List ℕ) × Outcome
step queue (writes n ok buff) = ipc_write (results n ok) queue buff
step queue (reads n ok len) = ipc_read (results n ok) queue len

abbrev run : List (List ℕ) → List Use → List Outcome × List (List ℕ)
run queue [] = ([], queue)
run queue (u ∷ us) =
    let (queue', o) = step queue u in let rest = run queue' us in (o ∷ rest.0, rest.1)

-- What the transport promises: a queue of whole messages. A failure gives -1 and leaves it.
abbrev take_first : ℕ → List (List ℕ) → List (List ℕ) × Outcome
take_first len [] = ([], sleeps)
take_first len (m ∷ ms) = (ms, returns (pos (length (take len m))) (take len m))

abbrev spec_step : List (List ℕ) → Use → List (List ℕ) × Outcome
spec_step queue (writes n true buff) = (queue ++ buff ∷ [], returns (pos (length buff)) [])
spec_step queue (writes n false buff) = (queue, returns (negsuc 0) [])
spec_step queue (reads n true len) = take_first len queue
spec_step queue (reads n false len) = (queue, returns (negsuc 0) [])

abbrev spec_run : List (List ℕ) → List Use → List Outcome × List (List ℕ)
spec_run queue [] = ([], queue)
spec_run queue (u ∷ us) =
    let (queue', o) = spec_step queue u in let rest = spec_run queue' us in (o ∷ rest.0, rest.1)

write_again :
    (n : ℕ) (ok : Bool) (queue : List (List ℕ)) (buff : List ℕ)
    → ipc_write (results n ok) queue buff ≡ spec_step queue (writes n ok buff)
unfolding ipc_write
write_again zero true queue buff = refl
write_again zero false queue buff = refl
write_again (suc n) true queue buff = write_again n true queue buff
write_again (suc n) false queue buff = write_again n false queue buff

take_first-receive :
    (n len : ℕ) (queue : List (List ℕ)) → ipc_read (results n true) queue len ≡ take_first len queue
unfolding ipc_read
take_first-receive zero len [] = refl
take_first-receive zero len (m ∷ ms) = refl
take_first-receive (suc n) len queue = take_first-receive n len queue

read_again :
    (n : ℕ) (ok : Bool) (queue : List (List ℕ)) (len : ℕ)
    → ipc_read (results n ok) queue len ≡ spec_step queue (reads n ok len)
unfolding ipc_read
read_again n true queue len = take_first-receive n len queue
read_again zero false queue len = refl
read_again (suc n) false queue len = read_again n false queue len

step_refines : (queue : List (List ℕ)) (u : Use) → step queue u ≡ spec_step queue u
step_refines queue (writes n ok buff) = write_again n ok queue buff
step_refines queue (reads n ok len) = read_again n ok queue len

-- Any writes and reads over sockets, in each of which any number of calls of the system are tried again,
-- give the replies of a queue of whole messages, from which each read takes one and gets as much of it as
-- its buffer takes, and leave what that queue holds; a call that fails gives -1 and leaves it as it is.
socket_refines : (us : List Use) (queue : List (List ℕ)) → run queue us ≡ spec_run queue us
socket_refines [] queue = refl
socket_refines (u ∷ us) queue =
    ap (λ (r : List (List ℕ) × Outcome). let rest = run r.0 us in (r.1 ∷ rest.0, rest.1))
      (step_refines queue u)
    ∙ ap (λ (rest : List Outcome × List (List ℕ)). ((spec_step queue u).1 ∷ rest.0, rest.1))
        (socket_refines us (spec_step queue u).0)
