-- ===== src/Start/Names.antt =====
-- app/main.c: the names under which the processes listen and connect.
pub mod Digits
pub mod Meet
use tp1_so_2c.Base.{
  ℕ, zero, suc, ◌+◌, ◌-◌, ◌*◌, ◌/◌, ◌%◌, ◌<◌, ◌≤◌, ◌≡◌, refl, ap, ap₂, sym, ◌∙◌, subst, ◌≢◌, Bool,
  true, false, List, [], ◌∷◌, ◌++◌, map, Option, none, some, some_inj, arith, length, length-append,
  ltb, leb, if◌then◌else◌, get_elem?, ◌==◌, Bool-cases, ltb→lt, lt→ltb, inl, inr,
}
use mathlib.Core.Bool.{false≢true}
use tp1_so_2c.Models.{Product, City, Plane, Airline, Map}
use tp1_so_2c.Parser.{Parsed, parsed, fault, failed, negative_way, out_of_fuel, ◌>>=◌}
use tp1_so_2c.Parser.Maps.{parse_map}
use tp1_so_2c.Parser.Scanning.{if_true}
use tp1_so_2c.Start.{Entry, read_entries, read_folder, begins_with, airline_prefix, open_airline}

-- "%d" of `sprintf`, on fuel for the digits.
unfoldable pub decimal : ℕ → ℕ → List ℕ
decimal zero n = []
decimal (suc fuel) n =
    let rest = decimal fuel (n / 10) in
    if ltb n 10 then (b'0' + n) ∷ [] else rest ++ (b'0' + n % 10) ∷ []

-- "_air" and "map_ipc"
abbrev pub name_end : List ℕ
name_end = b'_' ∷ b'a' ∷ b'i' ∷ b'r' ∷ []

abbrev pub parent_name : List ℕ
parent_name = b'm' ∷ b'a' ∷ b'p' ∷ b'_' ∷ b'i' ∷ b'p' ∷ b'c' ∷ []

-- "%d_air"
unfoldable pub air_name : ℕ → List ℕ
unfolding decimal
air_name i = decimal (suc i) i ++ name_end

-- The process of an airline, with the name that it listens on and the one that it connects to.
pub record Child : Type 0 where
  pub airline : Airline
  pub listens : List ℕ
  pub connects : List ℕ

-- `run_airlines`
unfoldable pub run_airlines : List Airline → List Child
unfolding air_name
run_airlines airlines =
    map (λ a. record { airline = a; listens = air_name a.id; connects = parent_name }) airlines

-- The loop of `main` over `ipc_establish`, for `n` airlines from the one with number `i` on: the names of
-- the connections.
unfoldable pub establish_all : ℕ → ℕ → List (List ℕ)
unfolding air_name
establish_all i zero = []
establish_all i (suc n) = air_name i ∷ establish_all (i + 1) n
