-- ===== src/Log.antt =====
-- util.c: the processes and threads write to one log, line by line, under a semaphore of the system.
pub mod Whole
use tp1_so_2c.Base.{ℕ, suc, ◌≡◌, List, [], ◌∷◌, ◌++◌}

-- A line: "(pid) ", and the text of the call.
pub record Line : Type 0 where
  pub prefix : List ℕ
  pub text : List ℕ

-- Where a thread is in `mprintf`: outside, behind `lock`, behind the prefix, behind the text.
pub data Place : Type 0 where
  outside written : Place
  locked prefixed : Line → Place

-- A thread with the lines that it has still to write.
pub record Writer : Type 0 where
  pub place : Place
  pub lines : List Line

-- The value of `printLock`, and what is in the log.
pub record System : Type 0 where
  pub sem : ℕ
  pub log : List ℕ
  pub writers : List Writer

abbrev pub at_place : Place → List Line → Writer
at_place place lines = record { place = place; lines = lines }

-- `mprintf` with a log: `perform_lock`, the two writes, and `perform_unlock`.
pub data Step : System → System → Type 0 where
  lock :
      {sem : ℕ} {log : List ℕ} (before after : List Writer) (l : Line) (ls : List Line)
      → Step
          (record {
            sem = suc sem;
            log = log;
            writers = before ++ at_place outside (l ∷ ls) ∷ after;
          })
          (record { sem = sem; log = log; writers = before ++ at_place (locked l) ls ∷ after })
  write_prefix :
      {sem : ℕ} {log : List ℕ} (before after : List Writer) (l : Line) (ls : List Line)
      → Step
          (record { sem = sem; log = log; writers = before ++ at_place (locked l) ls ∷ after })
          (record {
            sem = sem;
            log = log ++ l.prefix;
            writers = before ++ at_place (prefixed l) ls ∷ after;
          })
  write_text :
      {sem : ℕ} {log : List ℕ} (before after : List Writer) (l : Line) (ls : List Line)
      → Step
          (record { sem = sem; log = log; writers = before ++ at_place (prefixed l) ls ∷ after })
          (record {
            sem = sem;
            log = log ++ l.text;
            writers = before ++ at_place written ls ∷ after;
          })
  unlock :
      {sem : ℕ} {log : List ℕ} (before after : List Writer) (ls : List Line)
      → Step
          (record { sem = sem; log = log; writers = before ++ at_place written ls ∷ after })
          (record { sem = suc sem; log = log; writers = before ++ at_place outside ls ∷ after })

pub data Steps : System → System → Type 0 where
  done : {s : System} → Steps s s
  more : {s t u : System} → Step s t → Steps t u → Steps s u

-- The threads before their first line, with the log of `mprintf_init`.
abbrev pub writers_of : List (List Line) → List Writer
writers_of [] = []
writers_of (ls ∷ lss) = at_place outside ls ∷ writers_of lss

abbrev pub start : List (List Line) → System
start lss = record { sem = 1; log = []; writers = writers_of lss }
