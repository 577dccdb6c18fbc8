-- ===== src/Parser/World.antt =====
-- parser.c, `parseMap`: the text of a map, and what is read of it.
use tp1_so_2c.Base.{
  ℕ, suc, ◌≡◌, refl, ap, ap₂, ◌∙◌, true, List, [], ◌∷◌, ◌++◌, Option, none, some, arith, ltb,
  length, length-replicate, replicate,
}
use tp1_so_2c.Base.Int.{ℤ, pos}
use tp1_so_2c.Models.{Name, Product, City, Map}
use tp1_so_2c.Models.Catalogue.{IsCatalogue, empty-IsCatalogue}
use tp1_so_2c.Routes.{Matrix, floyd_matrix}
use tp1_so_2c.Parser.{PairScan, Parsed, parsed, ◌>>=◌, into_buffer, city_name_max_length}
use tp1_so_2c.Parser.Maps.{
  CitiesRead, read_cities, read_links, read_ways, first_way, parse_cities, cities_behind, parse_map,
}
use tp1_so_2c.Parser.Scanning.{
  IsGap, AtName, IsName, IsNumeral, value, AtText-of_name, AtName-name, if_true, fits, skip_IsGap,
  scan_number_numeral,
}
use tp1_so_2c.Parser.Stocks.{Item, stocks_text}
use tp1_so_2c.Parser.Cities.{
  CityText, AreCities, cities_text, CitiesMatch, cities_buffer, ReadsCities,
}
use tp1_so_2c.Parser.Cities.Loop.{read_cities_lem}
use tp1_so_2c.Parser.Links.{
  Link, AreLinks, links_text, link_ways, scan_link, links-le-text, read_links_lem,
}

-- What follows the loop over the cities.
abbrev pub behind_cities : ℕ → CitiesRead → Parsed Map
behind_cities counter r =
    read_ways r.cities (replicate counter (replicate counter 0)) r.buffer r.aux r.rest >>= λ m.
    parsed (record { cities = r.cities; product = r.products; matrix = floyd_matrix m counter })

AtName-cities_text :
    (g : List ℕ) (city : Name) (is : List Item) (ts : List CityText) (tail : List ℕ)
    → IsName city
    → AtName (cities_text g ((city, is) ∷ ts) tail)
AtName-cities_text g city is ts tail n =
    AtName-name city (g ++ stocks_text g is (cities_text g ts tail)) n

-- `parseMap` on the number of the cities and on as many of them.
read_counter :
    (g count : List ℕ) (city : Name) (is : List Item) (ts : List CityText) (tail : List ℕ)
    → IsGap g
    → IsNumeral count
    → value 0 count ≡ suc (length ts)
    → IsName city
    → parse_map (some (count ++ (g ++ cities_text g ((city, is) ∷ ts) tail))) ≡ (
        read_cities
          (suc (length ts))
          0
          true
          none
          (cities_text g ((city, is) ∷ ts) tail)
          []
          none
          none
        >>= behind_cities (suc (length ts)))
unfolding parse_map parse_cities
read_counter g count city is ts tail h d n c =
    ap cities_behind (scan_number_numeral [] count g (cities_text g ((city, is) ∷ ts) tail) tt d h)
    ∙ ap₂ parse_cities n (
        skip_IsGap g (cities_text g ((city, is) ∷ ts) tail) h (
          AtText-of_name (cities_text g ((city, is) ∷ ts) tail)
            (AtName-cities_text g city is ts tail c)))

-- What `parseMap` gives on a text of cities, if the ways behind them are read.
pub read_map :
    (g count : List ℕ) (city : Name) (is : List Item) (ts : List CityText) (tail : List ℕ)
    (last : Option Name) (rest : List ℕ)
    → IsGap g
    → IsNumeral count
    → value 0 count ≡ suc (length ts)
    → IsName city
    → (r : ReadsCities 0 ((city, is) ∷ ts) [] last rest none (
        read_cities
          (suc (length ts))
          0
          true
          none
          (cities_text g ((city, is) ∷ ts) tail)
          []
          none
          none))
    → parse_map (some (count ++ (g ++ cities_text g ((city, is) ∷ ts) tail)))
      ≡ behind_cities (suc (length ts)) (record {
        cities = r.cities;
        products = r.products;
        buffer = r.buffer;
        aux = r.aux;
        rest = rest;
      })
read_map g count city is ts tail last rest h d n c r =
    read_counter g count city is ts tail h d n c
    ∙ ap (λ (x : Parsed CitiesRead). x >>= behind_cities (suc (length ts))) r.reads

-- The matrix of the ways of a text.
abbrev pub text_ways : List CityText → List Link → Matrix
text_ways ts ls = link_ways ts (replicate (length ts) (replicate (length ts) 0)) ls

-- The map that a text describes.
pub record ReadsMap (ts : List CityText) (ls : List Link) (result : Parsed Map) : Type 0 where
  pub cities : List City
  pub products : List Product
  pub reads :
      result
      ≡ parsed (record {
        cities = cities;
        product = products;
        matrix = floyd_matrix (text_ways ts ls) (length ts);
      })
  pub match : CitiesMatch products 0 ts cities
  pub catalogue : IsCatalogue products

way_in_buffer :
    (from city : Name) (is : List Item) (us : List CityText) (buffer : Option Name)
    → cities_buffer ((city, is) ∷ us) (some from) buffer ≡ some from
way_in_buffer from city is [] buffer = refl
way_in_buffer from city is ((name, js) ∷ us) buffer = way_in_buffer from name js us (some [])

ways_lem :
    (g : List ℕ) (ps : List Product) (ts : List CityText) (cs : List City) (m : Matrix)
    (from to digits : List ℕ) (ls : List Link) (aux : Option ℤ)
    → IsGap g
    → CitiesMatch ps 0 ts cs
    → length m ≡ length ts
    → AreLinks ts ((from, to, digits) ∷ ls)
    → read_ways cs m (some from) aux (to ++ (g ++ (digits ++ (g ++ links_text g ls))))
      ≡ parsed (link_ways ts m ((from, to, digits) ∷ ls))
unfolding read_ways
ways_lem g ps ts cs m [] to digits ls aux h c sq a = absurd a.0
ways_lem g ps ts cs m (b ∷ from) to digits ls aux h c sq a =
    ap (first_way cs m (b ∷ from) aux) (scan_link g ts to digits ls h a.1 a.2 a.5)
    ∙ any_number aux
    ∙ if_true (ltb (length to) city_name_max_length) _ _ (fits to a.1)
    ∙ read_links_lem g ps ts cs (suc (length (links_text g ls))) m (b ∷ from) to digits ls h c sq
        a.3 a.4 a.5 (omega (arith, links-le-text g ts ls a.5))
  where
    any_number :
        (aux : Option ℤ)
        → first_way cs m (b ∷ from) aux (PairScan.pair to (pos (value 0 digits)) (links_text g ls))
          ≡ into_buffer to (
              read_links
                (suc (length (links_text g ls)))
                cs
                m
                (b ∷ from)
                to
                (pos (value 0 digits))
                (links_text g ls))
    any_number none = refl
    any_number (some n) = refl

-- `parseMap` on the number of the cities, with as many cities behind it, each with its stocks, and one
-- or more ways between them, with one gap between all words: it gives the cities of the text, numbered
-- from 0 on, whose products stand at their ids in the vector, and as the matrix what `floydMatrix` makes
-- of the ways of the text, each of them in both directions.
pub parse_map_lem :
    (g count : List ℕ) (city : Name) (is : List Item) (ts : List CityText) (from to digits : List ℕ)
    (ls : List Link)
    → IsGap g
    → IsNumeral count
    → value 0 count ≡ suc (length ts)
    → AreCities ((city, is) ∷ ts)
    → AreLinks ((city, is) ∷ ts) ((from, to, digits) ∷ ls)
    → ReadsMap ((city, is) ∷ ts) ((from, to, digits) ∷ ls) (
        parse_map (
          some (
            count
            ++ (g ++ cities_text g ((city, is) ∷ ts) (links_text g ((from, to, digits) ∷ ls))))))
parse_map_lem g count city is ts from to digits ls h d n a w =
    let rest = to ++ (g ++ (digits ++ (g ++ links_text g ls))) in
    let tail = links_text g ((from, to, digits) ∷ ls) in
    let m = replicate (suc (length ts)) (replicate (suc (length ts)) 0) in
    let r =
      read_cities_lem g city is ts tail (some from) rest h a.0 a.1 a.2
        (AtName-name from (g ++ rest) w.0)
        (refl, w.0, AtName-name to (g ++ (digits ++ (g ++ links_text g ls))) w.1)
        empty-IsCatalogue in
    record {
      cities = r.cities;
      products = r.products;
      reads =
          read_map g count city is ts tail (some from) rest h d n a.0 r
          ∙ ap
              (λ (x : Parsed Matrix). x >>= λ m. parsed (record {
                cities = r.cities;
                product = r.products;
                matrix = floyd_matrix m (suc (length ts));
              }))
              (ap (λ b. read_ways r.cities m b r.aux rest)
                  (r.in_buffer ∙ way_in_buffer from city is ts none)
                ∙ ways_lem g r.products ((city, is) ∷ ts) r.cities m from to digits ls r.aux h
                    r.match (length-replicate (suc (length ts)) (replicate (suc (length ts)) 0)) w);
      match = r.match;
      catalogue = r.catalogue;
    }
