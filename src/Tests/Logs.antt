-- ===== src/Tests/Logs.antt =====
-- Two threads at the log of util.c, and the theorem at them.
use tp1_so_2c.Base.{List, [], ◌∷◌}
use tp1_so_2c.Log.{Line, outside, prefixed, System, at_place}

abbrev hello : Line
hello = record { prefix = b'(' ∷ b'7' ∷ b')' ∷ []; text = b'h' ∷ b'i' ∷ [] }

abbrev lines_of : List (List Line)
lines_of = (hello ∷ []) ∷ (hello ∷ hello ∷ []) ∷ []

-- The second is in the middle of its first line.
abbrev half_way : System
half_way = record {
  sem = 0;
  log = hello.prefix;
  writers = at_place outside (hello ∷ []) ∷ at_place (prefixed hello) (hello ∷ []) ∷ [];
}
