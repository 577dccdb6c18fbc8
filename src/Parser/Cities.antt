-- ===== src/Parser/Cities.antt =====
-- parser.c, `parseMap`: the loop over the cities, at the text of some cities.
pub mod Loop
use tp1_so_2c.Base.{
  ℕ, suc, ◌+◌, ◌≡◌, refl, ap, sym, ◌∙◌, subst, Bool, true, false, List, [], ◌∷◌, ◌++◌, Option, none,
  some, arith, ltb, length, ◌==◌, if◌then◌else◌,
}
use tp1_so_2c.Base.Int.{ℤ}
use tp1_so_2c.Models.{Name, Product, City}
use tp1_so_2c.Models.Catalogue.{IsCatalogue}
use tp1_so_2c.Parser.{Parsed, parsed, ◌>>=◌, StocksRead, read_stocks, city_name_max_length}
use tp1_so_2c.Parser.Airlines.{still_first}
use tp1_so_2c.Parser.Maps.{
  CitiesRead, first_city_name, name_of_city, buffer_after, put_city, make_city, read_cities,
}
use tp1_so_2c.Parser.Scanning.{
  IsGap, AtName, IsName, AtText-of_name, AtName-name, if_true, fits, skip_IsGap, scan_word_lem,
}
use tp1_so_2c.Parser.Stocks.{
  Item, AreItems, stocks_text, StopsAt, Match, Match-Keeps, Keeps, Keeps-trans, AtName-stocks,
  read_stocks_lem, final_buffer,
}
use tp1_so_2c.Parser.Fleet.{items-le-text}

-- A city as the file describes it: its name and its stocks.
abbrev pub CityText : Type 0
CityText = Name × List Item

abbrev pub AreCities : List CityText → Type 0
AreCities [] = Unit
AreCities ((city, is) ∷ ts) = IsName city × AreItems is × AreCities ts

abbrev pub cities_text : List ℕ → List CityText → List ℕ → List ℕ
cities_text g [] tail = tail
cities_text g ((city, is) ∷ ts) tail = city ++ (g ++ stocks_text g is (cities_text g ts tail))

-- The cities are those of the text, numbered from `i` on.
abbrev pub CitiesMatch : List Product → ℕ → List CityText → List City → Type 0
CitiesMatch ps i [] [] = Unit
CitiesMatch ps i ((name, is) ∷ ts) (c ∷ cs) =
    (c.name ≡ name) × (c.id ≡ i) × Match ps is c.stock × CitiesMatch ps (i + 1) ts cs
CitiesMatch ps i _ _ = ⊥

-- What is in `buffer` after the cities.
abbrev pub cities_buffer : List CityText → Option Name → Option Name → Option Name
cities_buffer [] last buffer = buffer
cities_buffer ((city, is) ∷ []) last buffer = final_buffer is last buffer
cities_buffer ((city, is) ∷ (t ∷ ts)) last buffer = cities_buffer (t ∷ ts) last (some [])

-- What the loop over the cities leaves.
pub record ReadsCities (i : ℕ) (ts : List CityText) (ps : List Product) (last : Option Name)
    (rest : List ℕ) (buffer0 : Option Name) (result : Parsed CitiesRead) : Type 0 where
  pub cities : List City
  pub products : List Product
  pub buffer : Option Name
  pub aux : Option ℤ
  pub reads :
      result
      ≡ parsed
          (record { cities = cities; products = products; buffer = buffer; aux = aux; rest = rest })
  pub match : CitiesMatch products i ts cities
  pub catalogue : IsCatalogue products
  pub keeps : Keeps ps products
  pub in_buffer : buffer ≡ cities_buffer ts last buffer0

-- The word at which the stocks of a city end, and the text behind it.
abbrev next_word : List CityText → Option Name → Option Name
next_word [] last = last
next_word ((city, is) ∷ ts) last = some city

abbrev behind_word : List ℕ → List CityText → List ℕ → List ℕ → List ℕ
behind_word g [] tail rest = rest
behind_word g ((city, is) ∷ ts) tail rest = stocks_text g is (cities_text g ts tail)

AtName-cities :
    (g : List ℕ) (ts : List CityText) (tail : List ℕ)
    → AreCities ts
    → AtName tail
    → AtName (cities_text g ts tail)
AtName-cities g [] tail a t = t
AtName-cities g ((city, is) ∷ ts) tail a t =
    AtName-name city (g ++ stocks_text g is (cities_text g ts tail)) a.0

stops :
    (g : List ℕ) (ts : List CityText) (tail : List ℕ) (last : Option Name) (rest : List ℕ)
    → AreCities ts
    → AtName tail
    → StopsAt g tail last rest
    → StopsAt g (cities_text g ts tail) (next_word ts last) (behind_word g ts tail rest)
stops g [] tail last rest a t s = s
stops g ((city, is) ∷ ts) tail last rest a t s =
    (refl, a.0, AtName-stocks g is (cities_text g ts tail) a.1 (AtName-cities g ts tail a.2 t))

-- `buffer` after a city, with the rest of the loop still to come.
later_buffer :
    (is : List Item) (city : Name) (ts : List CityText) (last buffer : Option Name) (r : StocksRead)
    → r.buffer ≡ final_buffer is (next_word ts last) buffer
    → r.last_word ≡ next_word ts last
    → cities_buffer ts last (buffer_after (length ts == 0) r)
      ≡ cities_buffer ((city, is) ∷ ts) last buffer
later_buffer is city [] last buffer r b w = b
later_buffer is city ((name, js) ∷ ts) last buffer r b w =
    ap
      (λ (x : Bool).
        cities_buffer ((name, js) ∷ ts) last
          (if x then r.buffer else elim r.last_word [ none ↦ r.buffer | some word ↦ some [] ]))
      (not_last (length ts))
    ∙ ap
        (λ (o : Option Name).
          cities_buffer ((name, js) ∷ ts) last (elim o [ none ↦ r.buffer | some word ↦ some [] ]))
        w
    ∙ any_buffer ts
  where
    not_last : (n : ℕ) → (suc n == 0) ≡ false
    not_last n = ground arith

    any_buffer :
        (us : List CityText)
        → cities_buffer ((name, js) ∷ us) last (some [])
          ≡ cities_buffer ((name, js) ∷ us) last (some [])
    any_buffer us = refl
