-- ===== src/Tests/Config.antt =====
-- Files that the parsers of parser.c read, and the theorems at them.
use tp1_so_2c.Base.{false, none, ℕ, ◌≡◌, refl, List, [], ◌∷◌, ◌++◌, some, arith, length, map}
use tp1_so_2c.Models.Catalogue.{empty-IsCatalogue}
use tp1_so_2c.Parser.{unset_word}
use tp1_so_2c.Parser.Airlines.{parse_airlines}
use tp1_so_2c.Parser.Maps.{parse_map}
use tp1_so_2c.Parser.Scanning.{IsName, IsGap}
use tp1_so_2c.Parser.Stocks.{Item, AreItems}
use tp1_so_2c.Parser.Fleet.{PlaneText, planes_text, ReadsPlanes}
use tp1_so_2c.Parser.Fleet.Loop.{parse_airlines_lem}
use tp1_so_2c.Parser.Cities.{CityText, cities_text}
use tp1_so_2c.Parser.Links.{Link, links_text}
use tp1_so_2c.Parser.Wayless.{last_product, parse_map_no_ways}
use tp1_so_2c.Parser.World.{text_ways, ReadsMap, parse_map_lem}
use tp1_so_2c.Start.{airline_prefix, begins_with, read_folder}
use tp1_so_2c.Start.Folder.{
  FileText, AreFiles, airline_text, other_entry, folder, ReadsFolder, read_folder_lem,
}
use tp1_so_2c.Start.Names.{establish_all, run_airlines, parent_name}
use tp1_so_2c.Start.Names.Meet.{AllDiffer, names_meet}
use tp1_so_2c.Start.World.{StartsSound, read_folder_sound}
use tp1_so_2c.Tests.{aspirin, rosario, cordoba, world}

abbrev newline : List ℕ
newline = 10 ∷ []

newline-IsGap : IsGap newline
newline-IsGap = (refl, tt)

-- Fifty of aspirin.
abbrev cargo : List Item
cargo = (aspirin.name, b'5' ∷ b'0' ∷ []) ∷ []

aspirin-IsName : IsName aspirin.name
aspirin-IsName = ((refl, refl, (λ e. omega arith), λ e. omega arith), (refl, tt), omega arith)

rosario-IsName : IsName rosario.name
rosario-IsName = ((refl, refl, (λ e. omega arith), λ e. omega arith), tt, omega arith)

cordoba-IsName : IsName cordoba.name
cordoba-IsName = ((refl, refl, (λ e. omega arith), λ e. omega arith), tt, omega arith)

cargo-AreItems : AreItems cargo
cargo-AreItems = (aspirin-IsName, (refl, (refl, tt)), tt)

abbrev fleet : List PlaneText
fleet = (rosario.name, cargo) ∷ (cordoba.name, cargo) ∷ []

parse_airlines_lem_example :
    ReadsPlanes world.cities 0 fleet []
      (parse_airlines ((b'2' ∷ []) ++ (newline ++ planes_text newline fleet)) world.cities [])
parse_airlines_lem_example =
    parse_airlines_lem newline (b'2' ∷ []) fleet world.cities [] newline-IsGap (refl, tt) refl
      (rosario-IsName, cargo-AreItems, (cordoba-IsName, cargo-AreItems, tt)) empty-IsCatalogue

abbrev towns : List CityText
towns = (rosario.name, cargo) ∷ (cordoba.name, cargo) ∷ []

abbrev highways : List Link
highways = (rosario.name, cordoba.name, b'9' ∷ []) ∷ []

parse_map_lem_example : ReadsMap towns highways (
    parse_map
      (some ((b'2' ∷ []) ++ (newline ++ cities_text newline towns (links_text newline highways)))))
parse_map_lem_example =
    parse_map_lem newline (b'2' ∷ []) rosario.name cargo ((cordoba.name, cargo) ∷ []) rosario.name
      cordoba.name (b'9' ∷ []) [] newline-IsGap (refl, tt) refl
      (rosario-IsName, cargo-AreItems, (cordoba-IsName, cargo-AreItems, tt))
      (rosario-IsName, cordoba-IsName, (refl, tt), omega arith, omega arith, tt)

parse_map_no_ways_example :
    parse_map (some ((b'2' ∷ []) ++ (newline ++ cities_text newline towns [])))
    ≡ unset_word (last_product towns)
parse_map_no_ways_example =
    parse_map_no_ways newline (b'2' ∷ []) rosario.name cargo ((cordoba.name, cargo) ∷ [])
      newline-IsGap (refl, tt) refl
      (rosario-IsName, cargo-AreItems, (cordoba-IsName, cargo-AreItems, tt)) tt

-- A folder with one airline.
abbrev files : List FileText
files =
    airline_text newline (b'x' ∷ []) (b'2' ∷ []) fleet
    ∷ other_entry (b'm' ∷ b'a' ∷ b'p' ∷ [], none)
    ∷ []

not_airline : begins_with airline_prefix (b'm' ∷ b'a' ∷ b'p' ∷ []) ≡ false
unfolding begins_with
not_airline = refl

files-AreFiles : AreFiles files
files-AreFiles = (
  newline-IsGap,
  (refl, tt),
  refl,
  (rosario-IsName, cargo-AreItems, (cordoba-IsName, cargo-AreItems, tt)),
  (not_airline, tt),
)

abbrev map_text : List ℕ
map_text = (b'2' ∷ []) ++ (newline ++ cities_text newline towns (links_text newline highways))

-- What main has of the folder.
in_folder : ReadsFolder towns highways files (read_folder (some map_text) (folder files))
in_folder =
    read_folder_lem newline (b'2' ∷ []) rosario.name cargo ((cordoba.name, cargo) ∷ []) rosario.name
      cordoba.name (b'9' ∷ []) [] files newline-IsGap (refl, tt) refl
      (rosario-IsName, cargo-AreItems, (cordoba-IsName, cargo-AreItems, tt))
      (rosario-IsName, cordoba-IsName, (refl, tt), omega arith, omega arith, tt) files-AreFiles

names_meet_example :
    (establish_all 0 (length in_folder.airlines)
      ≡ map (λ c. c.listens) (run_airlines in_folder.airlines))
    × AllDiffer (parent_name ∷ establish_all 0 (length in_folder.airlines))
names_meet_example =
    names_meet (some map_text) (folder files) in_folder.world in_folder.airlines in_folder.reads

read_folder_lem_example : ReadsFolder towns highways files (
    read_folder
      (some ((b'2' ∷ []) ++ (newline ++ cities_text newline towns (links_text newline highways))))
      (folder files))
read_folder_lem_example =
    read_folder_lem newline (b'2' ∷ []) rosario.name cargo ((cordoba.name, cargo) ∷ []) rosario.name
      cordoba.name (b'9' ∷ []) [] files newline-IsGap (refl, tt) refl
      (rosario-IsName, cargo-AreItems, (cordoba-IsName, cargo-AreItems, tt))
      (rosario-IsName, cordoba-IsName, (refl, tt), omega arith, omega arith, tt) files-AreFiles

read_folder_sound_example : StartsSound (text_ways towns highways) (
    read_folder
      (some ((b'2' ∷ []) ++ (newline ++ cities_text newline towns (links_text newline highways))))
      (folder files))
read_folder_sound_example =
    read_folder_sound newline (b'2' ∷ []) rosario.name cargo ((cordoba.name, cargo) ∷ [])
      rosario.name cordoba.name (b'9' ∷ []) [] files newline-IsGap (refl, tt) refl
      (rosario-IsName, cargo-AreItems, (cordoba-IsName, cargo-AreItems, tt))
      (omega arith, (omega arith, tt))
      (rosario-IsName, cordoba-IsName, (refl, tt), omega arith, omega arith, tt)
      (λ e. omega (arith, e), tt) files-AreFiles
