-- ===== src/Log/Whole.antt =====
-- util.c: the lines in the log are whole.
use tp1_so_2c.Base.{ℕ, ◌+◌, ◌≡◌, ◌==◌, if◌then◌else◌, List, [], ◌∷◌, ◌++◌}
use tp1_so_2c.Log.{Line, Place, outside, locked, prefixed, Writer, System}

abbrev pub inside : Place → ℕ
inside outside = 0
inside _ = 1

-- How many threads are behind the lock.
abbrev pub insiders : List Writer → ℕ
insiders [] = 0
insiders (w ∷ ws) = inside w.place + insiders ws

-- What a thread has written of a line that is not whole.
abbrev pub begun_at : Place → List ℕ
begun_at (prefixed l) = l.prefix
begun_at _ = []

abbrev pub begun : List Writer → List ℕ
begun [] = []
begun (w ∷ ws) = begun_at w.place ++ begun ws

-- Lines with the number of the thread that has written each.
abbrev pub text_of : List (ℕ × Line) → List ℕ
text_of [] = []
text_of ((i, l) ∷ ls) = (l.prefix ++ l.text) ++ text_of ls

-- The lines that thread `i` has written.
abbrev pub of_thread : ℕ → List (ℕ × Line) → List Line
of_thread i [] = []
of_thread i ((j, l) ∷ ls) = let rest = of_thread i ls in if i == j then l ∷ rest else rest

-- The line that a thread has begun, or is about to begin.
abbrev pub pending : Place → List Line
pending (locked l) = l ∷ []
pending (prefixed l) = l ∷ []
pending _ = []

-- Each of the threads from number `i` on has written some of its lines, in their order, and has the others
-- still to write.
abbrev pub AllOwned : ℕ → List (ℕ × Line) → List Writer → List (List Line) → Type 0
AllOwned i lines [] [] = Unit
AllOwned i lines (w ∷ ws) (ls ∷ lss) =
    (ls ≡ of_thread i lines ++ (pending w.place ++ w.lines)) × AllOwned (i + 1) lines ws lss
AllOwned i lines _ _ = ⊥

-- At most one thread is behind the lock, and the log is whole lines, with at most the prefix of that
-- thread's line behind them. What a thread has written is the first of its lines, in their order.
pub record IsWhole (lss : List (List Line)) (s : System) : Type 0 where
  pub lines : List (ℕ × Line)
  pub log : s.log ≡ text_of lines ++ begun s.writers
  pub owned : AllOwned 0 lines s.writers lss
  pub alone : insiders s.writers + s.sem ≡ 1

-- The log around one thread, when no other is behind the lock.
abbrev around : ℕ → List ℕ → List Writer → List Writer → Writer → System
around sem log before after w = record { sem = sem; log = log; writers = before ++ w ∷ after }
