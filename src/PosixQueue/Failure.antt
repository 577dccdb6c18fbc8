-- ===== src/PosixQueue/Failure.antt =====
-- ipc/mqueue.c: what follows a write that fails.
use tp1_so_2c.Base.{ℕ, ◌≡◌, refl, ap, sym, ◌∙◌, subst, Bool, true, false, List, [], ◌∷◌}
use tp1_so_2c.Base.Int.{negsuc}
use tp1_so_2c.PosixQueue.{Conn, Write, returns, waits, ipc_write, Read, ipc_read}

-- What threads do with a connection, and what they see.
pub data Call : Type 0 where
  write : (sent : Bool) → List ℕ → Call
  read : (received : Bool) → ℕ → Call

pub data Reply : Type 0 where
  wrote : Write → Reply
  got : Read → Reply

abbrev pub call : Conn → Call → Conn × Reply
call c (write sent buff) = let r = ipc_write sent c buff in (r.0, wrote r.1)
call c (read received len) = let r = ipc_read received c len in (r.0, got r.1)

unfoldable pub run : Conn → List Call → List Reply
run c [] = []
run c (x ∷ calls) = (call c x).1 ∷ run (call c x).0 calls

-- Every write waits.
abbrev pub WritesWait : List Call → List Reply → Type 0
WritesWait [] replies = Unit
WritesWait (x ∷ calls) [] = ⊥
WritesWait (write sent buff ∷ calls) (r ∷ replies) = (r ≡ wrote waits) × WritesWait calls replies
WritesWait (read received len ∷ calls) (r ∷ replies) = WritesWait calls replies

write_held :
    (sent : Bool) (c : Conn) (buff : List ℕ) → c.locked ≡ true → ipc_write sent c buff ≡ (c, waits)
unfolding ipc_write
write_held sent c buff e = rw e

write_failed :
    (c : Conn) (buff : List ℕ)
    → c.locked ≡ false
    → ipc_write false c buff ≡ (record c { locked = true }, returns (negsuc 0))
unfolding ipc_write
write_failed c buff e = rw e

read-locked : (received : Bool) (c : Conn) (len : ℕ) → (ipc_read received c len).0.locked ≡ c.locked
unfolding ipc_read
read-locked true c len = refl
read-locked false c len = refl

writes_wait : (c : Conn) (calls : List Call) → c.locked ≡ true → WritesWait calls (run c calls)
unfolding run
writes_wait c [] e = tt
writes_wait c (write sent buff ∷ calls) e = (
  ap (λ (r : Conn × Write). wrote r.1) (write_held sent c buff e),
  subst (λ (r : Conn × Write). WritesWait calls (run r.0 calls)) (sym (write_held sent c buff e))
      (writes_wait c calls e),
)
writes_wait c (read received len ∷ calls) e =
    writes_wait (ipc_read received c len).0 calls (read-locked received c len ∙ e)

-- When `mq_send` fails, `ipc_write` returns -1, and no later write on the connection ever returns, whatever
-- is written and read on it.
pub failed_write_lem :
    (c : Conn) (buff : List ℕ) (calls : List Call)
    → c.locked ≡ false
    → ((ipc_write false c buff).1 ≡ returns (negsuc 0))
      × WritesWait calls (run (ipc_write false c buff).0 calls)
failed_write_lem c buff calls e = (
  ap (λ (r : Conn × Write). r.1) (write_failed c buff e),
  subst (λ (r : Conn × Write). WritesWait calls (run r.0 calls)) (sym (write_failed c buff e))
      (writes_wait (record c { locked = true }) calls refl),
)
