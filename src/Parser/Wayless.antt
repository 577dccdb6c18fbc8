-- ===== src/Parser/Wayless.antt =====
-- parser.c, `parseMap`: a map with no ways.
use tp1_so_2c.Base.{
  ℕ, suc, ◌≡◌, refl, ap, sym, ◌∙◌, List, [], ◌∷◌, ◌++◌, Option, none, some, length, replicate,
}
use tp1_so_2c.Models.{Name}
use tp1_so_2c.Models.Catalogue.{empty-IsCatalogue}
use tp1_so_2c.Routes.{floyd_matrix}
use tp1_so_2c.Parser.{PairScan, parsed, unset_word, ◌>>=◌}
use tp1_so_2c.Parser.Maps.{read_ways, first_way, parse_map}
use tp1_so_2c.Parser.Scanning.{IsGap, IsName, IsNumeral, value, scan_pair_end}
use tp1_so_2c.Parser.Stocks.{Item, AreItems, final_buffer}
use tp1_so_2c.Parser.Cities.{CityText, AreCities, cities_text, cities_buffer}
use tp1_so_2c.Parser.Cities.Loop.{read_cities_lem}
use tp1_so_2c.Parser.World.{behind_cities, read_map}

-- The last city has stocks.
abbrev pub LastHasStocks : List CityText → Type 0
LastHasStocks [] = ⊥
LastHasStocks ((city, []) ∷ []) = ⊥
LastHasStocks ((city, i ∷ is) ∷ []) = Unit
LastHasStocks (t ∷ (u ∷ ts)) = LastHasStocks (u ∷ ts)

-- The name of the last product of a city whose last product so far has the name `name`.
abbrev pub last_item : Name → List Item → Name
last_item name [] = name
last_item name ((next, digits) ∷ is) = last_item next is

-- The name of the last product of the last city.
abbrev pub last_product : List CityText → Name
last_product [] = []
last_product ((city, []) ∷ []) = []
last_product ((city, (name, digits) ∷ is) ∷ []) = last_item name is
last_product (t ∷ (u ∷ ts)) = last_product (u ∷ ts)

-- `buffer` holds the name.
record Held (name : Name) (buffer : Option Name) : Type 0 where
  byte : ℕ
  bytes : List ℕ
  whole : name ≡ byte ∷ bytes
  held : buffer ≡ some (byte ∷ bytes)

Held-name : (name : Name) → IsName name → Held name (some name)
Held-name [] n = absurd n
Held-name (c ∷ cs) n = record { byte = c; bytes = cs; whole = refl; held = refl }

Held-product :
    (is : List Item) (name : Name)
    → AreItems is
    → IsName name
    → Held (last_item name is) (final_buffer is none (some name))
Held-product [] name a n = Held-name name n
Held-product ((next, digits) ∷ is) name a n = Held-product is next a.2 a.0

Held-at_end :
    (ts : List CityText) (buffer : Option Name)
    → AreCities ts
    → LastHasStocks ts
    → Held (last_product ts) (cities_buffer ts none buffer)
Held-at_end [] buffer a l = absurd l
Held-at_end ((city, []) ∷ []) buffer a l = absurd l
Held-at_end ((city, (name, digits) ∷ is) ∷ []) buffer a l = Held-product is name a.1.2 a.1.0
Held-at_end ((city, is) ∷ (t ∷ ts)) buffer a l = Held-at_end (t ∷ ts) (some []) a.2 l

-- `parseMap` on a text with no ways, in which the last city has stocks, takes the name of its last product
-- for the first city of a way, and then uses the name of a second city that was never set.
pub parse_map_no_ways :
    (g count : List ℕ) (city : Name) (is : List Item) (ts : List CityText)
    → IsGap g
    → IsNumeral count
    → value 0 count ≡ suc (length ts)
    → AreCities ((city, is) ∷ ts)
    → LastHasStocks ((city, is) ∷ ts)
    → parse_map (some (count ++ (g ++ cities_text g ((city, is) ∷ ts) [])))
      ≡ unset_word (last_product ((city, is) ∷ ts))
unfolding read_ways
parse_map_no_ways g count city is ts h d n a l =
    let r =
      read_cities_lem g city is ts [] none [] h a.0 a.1 a.2 tt (refl, refl) empty-IsCatalogue in
    let b = Held-at_end ((city, is) ∷ ts) none a l in
    read_map g count city is ts [] none [] h d n a.0 r
    ∙ ap
        (λ (x : Option Name).
          behind_cities (suc (length ts)) (record {
            cities = r.cities;
            products = r.products;
            buffer = x;
            aux = r.aux;
            rest = [];
          }))
        (r.in_buffer ∙ b.held)
    ∙ ap
        (λ (x : PairScan).
          first_way r.cities (replicate (suc (length ts)) (replicate (suc (length ts)) 0))
            (b.byte ∷ b.bytes) r.aux x
          >>= λ m. parsed (record {
            cities = r.cities;
            product = r.products;
            matrix = floyd_matrix m (suc (length ts));
          }))
        scan_pair_end
    ∙ ap unset_word (sym b.whole)
