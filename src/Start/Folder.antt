-- ===== src/Start/Folder.antt =====
-- app/main.c: the texts of a configuration folder, and what is read of them.
use tp1_so_2c.Base.{
  ℕ, suc, ◌+◌, ◌≡◌, refl, ap, sym, ◌∙◌, subst, true, false, List, [], ◌∷◌, ◌++◌, some, length,
}
use tp1_so_2c.Models.{Name, Product, City, Map, Plane, Airline}
use tp1_so_2c.Models.Catalogue.{IsCatalogue}
use tp1_so_2c.Routes.{floyd_matrix}
use tp1_so_2c.Parser.{Parsed, parsed, ◌>>=◌}
use tp1_so_2c.Parser.Maps.{parse_map}
use tp1_so_2c.Parser.Scanning.{IsGap, IsNumeral, value, if_true}
use tp1_so_2c.Parser.Stocks.{Item, Keeps, Keeps-trans, Match-Keeps}
use tp1_so_2c.Parser.Fleet.{PlaneText, ArePlanes, planes_text, PlanesMatch}
use tp1_so_2c.Parser.Fleet.Loop.{parse_airlines_lem}
use tp1_so_2c.Parser.Cities.{CityText, AreCities, cities_text, CitiesMatch}
use tp1_so_2c.Parser.Links.{Link, AreLinks, links_text}
use tp1_so_2c.Parser.World.{text_ways, ReadsMap, parse_map_lem}
use tp1_so_2c.Start.{airline_prefix, begins_with, Entry, read_entries, read_folder}

-- An entry of the folder: the text of an airline, with the end of its name, or anything else.
pub data FileText : Type 0 where
  airline_text : (gap suffix count : List ℕ) → List PlaneText → FileText
  other_entry : Entry → FileText

abbrev pub AreFiles : List FileText → Type 0
AreFiles [] = Unit
AreFiles (airline_text gap suffix count ts ∷ fs) =
    IsGap gap × IsNumeral count × (value 0 count ≡ length ts) × ArePlanes ts × AreFiles fs
AreFiles (other_entry e ∷ fs) = (begins_with airline_prefix e.0 ≡ false) × AreFiles fs

abbrev pub folder : List FileText → List Entry
folder [] = []
folder (airline_text gap suffix count ts ∷ fs) =
    (airline_prefix ++ suffix, some (count ++ (gap ++ planes_text gap ts))) ∷ folder fs
folder (other_entry e ∷ fs) = e ∷ folder fs

-- The airlines are those of the texts, numbered from `id` on.
abbrev pub AirlinesMatch : List Product → List City → ℕ → List FileText → List Airline → Type 0
AirlinesMatch ps cities id [] [] = Unit
AirlinesMatch ps cities id [] (a ∷ airlines) = ⊥
AirlinesMatch ps cities id (other_entry e ∷ fs) airlines = AirlinesMatch ps cities id fs airlines
AirlinesMatch ps cities id (airline_text gap suffix count ts ∷ fs) [] = ⊥
AirlinesMatch ps cities id (airline_text gap suffix count ts ∷ fs) (a ∷ airlines) =
    (a.id ≡ id) × PlanesMatch ps cities 0 ts a.planes × AirlinesMatch ps cities (id + 1) fs airlines

-- What the loop over the entries leaves.
record ReadsEntries (cities : List City) (id : ℕ) (fs : List FileText) (ps : List Product)
    (result : Parsed (List Airline × List Product)) : Type 0 where
  airlines : List Airline
  products : List Product
  reads : result ≡ parsed (airlines, products)
  match : AirlinesMatch products cities id fs airlines
  catalogue : IsCatalogue products
  keeps : Keeps ps products

PlanesMatch-Keeps :
    {ps qs : List Product} (cities : List City) (i : ℕ) (ts : List PlaneText) (planes : List Plane)
    → Keeps ps qs
    → PlanesMatch ps cities i ts planes
    → PlanesMatch qs cities i ts planes
PlanesMatch-Keeps cities i [] [] k m = tt
PlanesMatch-Keeps cities i [] (p ∷ planes) k m = absurd m
PlanesMatch-Keeps cities i (t ∷ ts) [] k m = absurd m
PlanesMatch-Keeps cities i ((city, is) ∷ ts) (p ∷ planes) k m =
    (m.0, m.1, m.2, Match-Keeps is p.stocks k m.3, PlanesMatch-Keeps cities (i + 1) ts planes k m.4)

CitiesMatch-Keeps :
    {ps qs : List Product} (i : ℕ) (ts : List CityText) (cities : List City)
    → Keeps ps qs
    → CitiesMatch ps i ts cities
    → CitiesMatch qs i ts cities
CitiesMatch-Keeps i [] [] k m = tt
CitiesMatch-Keeps i [] (c ∷ cities) k m = absurd m
CitiesMatch-Keeps i (t ∷ ts) [] k m = absurd m
CitiesMatch-Keeps i ((name, is) ∷ ts) (c ∷ cities) k m =
    (m.0, m.1, Match-Keeps is c.stock k m.2, CitiesMatch-Keeps (i + 1) ts cities k m.3)

named_airline : (suffix : List ℕ) → begins_with airline_prefix (airline_prefix ++ suffix) ≡ true
unfolding begins_with
named_airline suffix = refl

add_airline :
    {cities : List City} {id : ℕ} {fs : List FileText} {ps qs : List Product}
    {next : Parsed (List Airline × List Product)} (gap suffix count : List ℕ) (ts : List PlaneText)
    (planes : List Plane)
    → PlanesMatch qs cities 0 ts planes
    → Keeps ps qs
    → ReadsEntries cities (id + 1) fs qs next
    → ReadsEntries cities id
        (airline_text gap suffix count ts ∷ fs)
        ps
        (next >>= λ more. parsed (record { id = id; planes = planes } ∷ more.0, more.1))
add_airline {cities} {id} {fs} {ps} {qs} {next} gap suffix count ts planes m k more = record {
  airlines = record { id = id; planes = planes } ∷ more.airlines;
  products = more.products;
  reads =
      ap (λ x. x >>= λ more. parsed (record { id = id; planes = planes } ∷ more.0, more.1))
        more.reads;
  match = (refl, PlanesMatch-Keeps cities 0 ts planes more.keeps m, more.match);
  catalogue = more.catalogue;
  keeps = Keeps-trans k more.keeps;
}

read_entries_lem :
    (cities : List City) (id : ℕ) (fs : List FileText) (ps : List Product)
    → AreFiles fs
    → IsCatalogue ps
    → ReadsEntries cities id fs ps (read_entries (folder fs) id cities ps)
unfolding read_entries
read_entries_lem cities id [] ps a c = record {
  airlines = [];
  products = ps;
  reads = refl;
  match = tt;
  catalogue = c;
  keeps = record { at = λ i p e. e };
}
read_entries_lem cities id (other_entry e ∷ fs) ps a c =
    let r = read_entries_lem cities id fs ps a.1 c in
    rw a.0 (record {
      airlines = r.airlines;
      products = r.products;
      reads = r.reads;
      match = r.match;
      catalogue = r.catalogue;
      keeps = r.keeps;
    })
read_entries_lem cities id (airline_text gap suffix count ts ∷ fs) ps a c =
    let line = parse_airlines_lem gap count ts cities ps a.0 a.1 a.2 a.3 c in
    subst (ReadsEntries cities id (airline_text gap suffix count ts ∷ fs) ps)
      (sym (
        if_true (begins_with airline_prefix (airline_prefix ++ suffix)) _
          (read_entries (folder fs) id cities ps) (named_airline suffix)
        ∙ ap
            (λ (x : Parsed (List Plane × List Product)). x >>= λ line.
              read_entries (folder fs) (id + 1) cities line.1 >>= λ more.
              parsed (record { id = id; planes = line.0 } ∷ more.0, more.1))
            line.reads))
      (add_airline gap suffix count ts line.planes line.match line.keeps
        (read_entries_lem cities (id + 1) fs line.products a.4 line.catalogue))

-- What `main` has read.
pub record ReadsFolder (ts : List CityText) (ls : List Link) (fs : List FileText)
    (result : Parsed (Map × List Airline)) : Type 0 where
  pub world : Map
  pub airlines : List Airline
  pub reads : result ≡ parsed (world, airlines)
  pub cities : CitiesMatch world.product 0 ts world.cities
  pub matrix : world.matrix ≡ floyd_matrix (text_ways ts ls) (length ts)
  pub planes : AirlinesMatch world.product world.cities 0 fs airlines
  pub catalogue : IsCatalogue world.product

behind_map :
    (ts : List CityText) (ls : List Link) (fs : List FileText) (file : List ℕ)
    → AreFiles fs
    → ReadsMap ts ls (parse_map (some file))
    → ReadsFolder ts ls fs (read_folder (some file) (folder fs))
unfolding read_folder
behind_map ts ls fs file a m =
    let r = read_entries_lem m.cities 0 fs m.products a m.catalogue in
    let matrix = floyd_matrix (text_ways ts ls) (length ts) in
    record {
      world = record { cities = m.cities; product = r.products; matrix = matrix };
      airlines = r.airlines;
      reads =
          ap
            (λ (x : Parsed Map). x >>= λ m.
              read_entries (folder fs) 0 m.cities m.product >>= λ read.
              parsed (record m { product = read.1 }, read.0))
            m.reads
          ∙ ap
              (λ (x : Parsed (List Airline × List Product)). x >>= λ read.
                parsed (record { cities = m.cities; product = read.1; matrix = matrix }, read.0))
              r.reads;
      cities = CitiesMatch-Keeps 0 ts m.cities r.keeps m.match;
      matrix = refl;
      planes = r.match;
      catalogue = r.catalogue;
    }

-- `main` reads a configuration folder that holds a map, as `parse_map_lem` has it, and airlines, each in a
-- file whose name begins with "airline_", whatever follows in the name, and as `parse_airlines_lem` has it,
-- with any other files between them: it has the cities and the planes of the texts. The ids of the airlines
-- are their places among them in the order in which the folder is listed, and not the numbers in the names;
-- all their stocks are of products that stand at their ids in the one vector of the map.
pub read_folder_lem :
    (g count : List ℕ) (city : Name) (is : List Item) (ts : List CityText) (from to digits : List ℕ)
    (ls : List Link) (fs : List FileText)
    → IsGap g
    → IsNumeral count
    → value 0 count ≡ suc (length ts)
    → AreCities ((city, is) ∷ ts)
    → AreLinks ((city, is) ∷ ts) ((from, to, digits) ∷ ls)
    → AreFiles fs
    → ReadsFolder ((city, is) ∷ ts) ((from, to, digits) ∷ ls) fs (
        read_folder
          (some (
            count
            ++ (g ++ cities_text g ((city, is) ∷ ts) (links_text g ((from, to, digits) ∷ ls)))))
          (folder fs))
read_folder_lem g count city is ts from to digits ls fs h d n a w f =
    behind_map ((city, is) ∷ ts) ((from, to, digits) ∷ ls) fs
      (count ++ (g ++ cities_text g ((city, is) ∷ ts) (links_text g ((from, to, digits) ∷ ls)))) f
      (parse_map_lem g count city is ts from to digits ls h d n a w)
