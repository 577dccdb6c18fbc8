-- ===== src/Start.antt =====
-- app/main.c: the configuration folder is read. The folder is the list of its entries, in the order in which
-- `readdir` gives them: the name of each, and the bytes of the file if it can be opened.
pub mod Folder
pub mod Ways
pub mod World
pub mod Names
use tp1_so_2c.Base.{
  ℕ, zero, suc, ◌+◌, Bool, true, false, List, [], ◌∷◌, Option, none, some, ◌==◌, length,
  if◌then◌else◌,
}
use tp1_so_2c.Models.{Name, Product, City, Map, Plane, Airline}
use tp1_so_2c.Parser.{Parsed, parsed, fault, ◌>>=◌}
use tp1_so_2c.Parser.Airlines.{parse_airlines}
use tp1_so_2c.Parser.Maps.{parse_map}

-- "airline_"
abbrev pub airline_prefix : List ℕ
airline_prefix = b'a' ∷ b'i' ∷ b'r' ∷ b'l' ∷ b'i' ∷ b'n' ∷ b'e' ∷ b'_' ∷ []

-- Whether a name begins with some bytes, which is `strncmp` for their number.
unfoldable pub begins_with : List ℕ → List ℕ → Bool
begins_with [] name = true
begins_with (c ∷ prefix) [] = false
begins_with (c ∷ prefix) (d ∷ name) =
    let rest = begins_with prefix name in if c == d then rest else false

abbrev pub Entry : Type 0
Entry = List ℕ × Option (List ℕ)

-- `fopen` and `parseAirlines`: reading through the null pointer is a fault.
abbrev pub open_airline :
    Option (List ℕ) → List City → List Product → Parsed (List Plane × List Product)
open_airline none cities ps = fault
open_airline (some file) cities ps = parse_airlines file cities ps

-- The loop over the entries: the next index of the vector of airlines, and the products of the map.
unfoldable pub read_entries :
    List Entry → ℕ → List City → List Product → Parsed (List Airline × List Product)
unfolding begins_with
read_entries [] id cities ps = parsed ([], ps)
read_entries ((name, file) ∷ entries) id cities ps =
    let skipped = read_entries entries id cities ps in
    let read = open_airline file cities ps >>= λ line.
    read_entries entries (id + 1) cities line.1 >>= λ more.
    parsed (record { id = id; planes = line.0 } ∷ more.0, more.1) in
    if begins_with airline_prefix name then read else skipped

-- What `main` reads before it starts the airlines. `failed`: it goes on with a null pointer for the map.
unfoldable pub read_folder : Option (List ℕ) → List Entry → Parsed (Map × List Airline)
unfolding read_entries
read_folder map_file entries = parse_map map_file >>= λ m.
    read_entries entries 0 m.cities m.product >>= λ read.
    parsed (record m { product = read.1 }, read.0)
