-- ===== src/Start/Names/Meet.antt =====
-- app/main.c: main connects to where the airlines listen.
use tp1_so_2c.Base.{
  ℕ, zero, suc, ◌+◌, ◌≤◌, ◌≡◌, refl, ap, ap₂, sym, subst, ◌≢◌, Bool, true, false, List, [], ◌∷◌,
  map, Option, arith, length, if◌then◌else◌,
}
use tp1_so_2c.Models.{Product, City, Plane, Airline, Map}
use tp1_so_2c.Parser.{Parsed, parsed, fault, failed, negative_way, out_of_fuel, unset_word, ◌>>=◌}
use tp1_so_2c.Parser.Maps.{parse_map}
use tp1_so_2c.Start.{Entry, read_entries, read_folder, begins_with, airline_prefix, open_airline}
use tp1_so_2c.Start.Names.{parent_name, air_name, run_airlines, establish_all}
use tp1_so_2c.Start.Names.Digits.{air_name-injective, not_parent}

-- The airlines have their places, from `i` on, for ids.
abbrev pub AreNumbered : ℕ → List Airline → Type 0
AreNumbered i [] = Unit
AreNumbered i (a ∷ airlines) = (a.id ≡ i) × AreNumbered (i + 1) airlines

establish_all-listens :
    (i : ℕ) (airlines : List Airline)
    → AreNumbered i airlines
    → establish_all i (length airlines) ≡ map (λ c. c.listens) (run_airlines airlines)
unfolding establish_all run_airlines
establish_all-listens i [] e = refl
establish_all-listens i (a ∷ airlines) (e, es) =
    ap₂ ◌∷◌ (ap air_name (sym e)) (establish_all-listens (i + 1) airlines es)

abbrev pub IsAbsent : List ℕ → List (List ℕ) → Type 0
IsAbsent name [] = Unit
IsAbsent name (n ∷ names) = (name ≢ n) × IsAbsent name names

abbrev pub AllDiffer : List (List ℕ) → Type 0
AllDiffer [] = Unit
AllDiffer (n ∷ names) = IsAbsent n names × AllDiffer names

module _ (name : List ℕ) (k : ℕ) (other : (i : ℕ) → k ≤ i → name ≢ air_name i) where
  other_names : (i n : ℕ) → k ≤ i → IsAbsent name (establish_all i n)
  unfolding establish_all
  other_names i zero h = tt
  other_names i (suc n) h = (other i h, other_names (i + 1) n (omega (arith, h)))

establish_all-AllDiffer : (i n : ℕ) → AllDiffer (establish_all i n)
unfolding establish_all
establish_all-AllDiffer i zero = tt
establish_all-AllDiffer i (suc n) = (
  other_names (air_name i) (i + 1) (λ j h e. absurd (omega (arith, h, air_name-injective i j e)))
      (i + 1) n (omega arith),
  establish_all-AllDiffer (i + 1) n,
)

-- What `read_entries` gives, if it reads all.
abbrev Numbers : ℕ → Parsed (List Airline × List Product) → Type 0
Numbers i (parsed r) = AreNumbered i r.0
Numbers i _ = Unit

numbered_from :
    (id : ℕ) (line : List Plane × List Product) (r : Parsed (List Airline × List Product))
    → Numbers (id + 1) r
    → Numbers id (r >>= λ more. parsed (record { id = id; planes = line.0 } ∷ more.0, more.1))
numbered_from id line (parsed more) n = (refl, n)
numbered_from id line fault n = tt
numbered_from id line failed n = tt
numbered_from id line negative_way n = tt
numbered_from id line (unset_word from) n = tt
numbered_from id line out_of_fuel n = tt

numbered_line :
    (id : ℕ) (line : Parsed (List Plane × List Product))
    (rest : List Product → Parsed (List Airline × List Product))
    → ((ps : List Product) → Numbers (id + 1) (rest ps))
    → Numbers id (
        line >>= λ l.
        rest l.1 >>= λ more. parsed (record { id = id; planes = l.0 } ∷ more.0, more.1))
numbered_line id (parsed l) rest n = numbered_from id l (rest l.1) (n l.1)
numbered_line id fault rest n = tt
numbered_line id failed rest n = tt
numbered_line id negative_way rest n = tt
numbered_line id (unset_word from) rest n = tt
numbered_line id out_of_fuel rest n = tt

if-Numbers :
    (b : Bool) (id : ℕ) (x y : Parsed (List Airline × List Product))
    → Numbers id x
    → Numbers id y
    → Numbers id (if b then x else y)
if-Numbers true id x y n m = n
if-Numbers false id x y n m = m

read_entries-Numbers :
    (entries : List Entry) (id : ℕ) (cities : List City) (ps : List Product)
    → Numbers id (read_entries entries id cities ps)
unfolding read_entries
read_entries-Numbers [] id cities ps = tt
read_entries-Numbers ((name, file) ∷ entries) id cities ps =
    if-Numbers (begins_with airline_prefix name) id _ _
      (numbered_line id (open_airline file cities ps) (read_entries entries (id + 1) cities)
        (read_entries-Numbers entries (id + 1) cities))
      (read_entries-Numbers entries id cities ps)

abbrev FolderNumbered : Parsed (Map × List Airline) → Type 0
FolderNumbered (parsed r) = AreNumbered 0 r.1
FolderNumbered _ = Unit

folder_numbered :
    (m : Map) (r : Parsed (List Airline × List Product))
    → Numbers 0 r
    → FolderNumbered (r >>= λ read. parsed (record m { product = read.1 }, read.0))
folder_numbered m (parsed read) n = n
folder_numbered m fault n = tt
folder_numbered m failed n = tt
folder_numbered m negative_way n = tt
folder_numbered m (unset_word from) n = tt
folder_numbered m out_of_fuel n = tt

map_numbered :
    (m : Parsed Map) (entries : List Entry)
    → FolderNumbered (
        m >>= λ m'. read_entries entries 0 m'.cities m'.product >>= λ read.
        parsed (record m' { product = read.1 }, read.0))
map_numbered (parsed m) entries =
    folder_numbered m (read_entries entries 0 m.cities m.product)
      (read_entries-Numbers entries 0 m.cities m.product)
map_numbered fault entries = tt
map_numbered failed entries = tt
map_numbered negative_way entries = tt
map_numbered (unset_word from) entries = tt
map_numbered out_of_fuel entries = tt

-- When main has read the configuration folder, whatever is in it: the connections that it makes are to the
-- names on which the processes of the airlines listen, each to that of the airline whose place in the
-- vector is its own; and those names, and that on which main itself listens, are all different.
pub names_meet :
    (map_file : Option (List ℕ)) (entries : List Entry) (m : Map) (airlines : List Airline)
    → read_folder map_file entries ≡ parsed (m, airlines)
    → (establish_all 0 (length airlines) ≡ map (λ c. c.listens) (run_airlines airlines))
      × AllDiffer (parent_name ∷ establish_all 0 (length airlines))
unfolding read_folder
names_meet map_file entries m airlines e =
    let numbered : AreNumbered 0 airlines =
      subst FolderNumbered e (map_numbered (parse_map map_file) entries) in
    (
      establish_all-listens 0 airlines numbered,
      (
        other_names parent_name 0 (λ i h. not_parent i) 0 (length airlines) (omega arith),
        establish_all-AllDiffer 0 (length airlines),
      ),
    )
