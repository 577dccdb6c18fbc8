-- ===== src/Parser/Cities/Loop.antt =====
-- parser.c, `parseMap`: the rounds of the loop over the cities.
use tp1_so_2c.Base.{
  ℕ, suc, ◌+◌, ◌≡◌, refl, ap, sym, ◌∙◌, subst, Bool, true, false, List, [], ◌∷◌, Option, none,
  arith, ltb, length, ◌==◌,
}
use tp1_so_2c.Base.Int.{ℤ}
use tp1_so_2c.Models.{Name, Product}
use tp1_so_2c.Models.Catalogue.{IsCatalogue}
use tp1_so_2c.Parser.{Parsed, parsed, ◌>>=◌, StocksRead, read_stocks, city_name_max_length}
use tp1_so_2c.Parser.Airlines.{still_first}
use tp1_so_2c.Parser.Maps.{
  CitiesRead, first_city_name, name_of_city, buffer_after, put_city, make_city, read_cities,
}
use tp1_so_2c.Parser.Scanning.{
  IsGap, AtName, IsName, AtText-of_name, if_true, fits, skip_IsGap, scan_word_lem,
}
use tp1_so_2c.Parser.Stocks.{
  Item, AreItems, stocks_text, StopsAt, Match, Match-Keeps, Keeps, Keeps-trans, AtName-stocks,
  read_stocks_lem,
}
use tp1_so_2c.Parser.Fleet.{items-le-text}
use tp1_so_2c.Parser.Cities.{
  CityText, AreCities, cities_text, cities_buffer, ReadsCities, next_word, behind_word,
  AtName-cities, stops, later_buffer,
}

-- A city that is read, in front of others.
add_city :
    {i : ℕ} {ts : List CityText} {ps qs : List Product} {last : Option Name} {rest : List ℕ}
    {next : Parsed CitiesRead} (buffer0 buffer : Option Name) (city : Name) (is : List Item)
    (r : StocksRead)
    → cities_buffer ts last buffer ≡ cities_buffer ((city, is) ∷ ts) last buffer0
    → Match qs is r.stocks
    → Keeps ps qs
    → ReadsCities (i + 1) ts qs last rest buffer next
    → ReadsCities i
        ((city, is) ∷ ts)
        ps
        last
        rest
        buffer0
        (next >>= λ more. put_city (make_city i city r) more)
add_city {i} {ts} {ps} {qs} {last} {rest} {next} buffer0 buffer city is r b m k more = record {
  cities = make_city i city r ∷ more.cities;
  products = more.products;
  buffer = more.buffer;
  aux = more.aux;
  reads = ap (λ x. x >>= λ more. put_city (make_city i city r) more) more.reads;
  match = (refl, refl, Match-Keeps is r.stocks more.keeps m, more.match);
  catalogue = more.catalogue;
  keeps = Keeps-trans k more.keeps;
  in_buffer = more.in_buffer ∙ b;
}

-- The loop behind the name of a city.
abbrev behind_name :
    ℕ → ℕ → Bool → List Product → Option Name → Option ℤ → Name × List ℕ → Parsed CitiesRead
behind_name left i first ps buffer aux n = read_stocks (suc (length n.1)) n.1 ps buffer aux >>= λ r.
    read_cities left (i + 1) (still_first first r.last_word) r.last_word r.rest r.products
      (buffer_after (left == 0) r) r.aux
    >>= λ more. put_city (make_city i n.0 r) more

city_step :
    (g : List ℕ) (first : Bool) (i : ℕ) (city : Name) (is : List Item) (ts : List CityText)
    (tail : List ℕ) (last : Option Name) (rest : List ℕ) (ps : List Product) (buffer : Option Name)
    (aux : Option ℤ)
    → IsGap g
    → AreItems is
    → AreCities ts
    → AtName tail
    → StopsAt g tail last rest
    → IsCatalogue ps
    → ((qs : List Product) (b : Option Name) (x : Option ℤ)
        → IsCatalogue qs
        → ReadsCities (i + 1) ts qs last rest b (
            read_cities
              (length ts)
              (i + 1)
              (still_first first (next_word ts last))
              (next_word ts last)
              (behind_word g ts tail rest)
              qs
              b
              x))
    → ReadsCities i ((city, is) ∷ ts) ps last rest buffer (
        behind_name
          (length ts)
          i
          first
          ps
          buffer
          aux
          (city, stocks_text g is (cities_text g ts tail)))
city_step g first i city is ts tail last rest ps buffer aux h a b t s c others =
    let text = stocks_text g is (cities_text g ts tail) in
    let r =
      read_stocks_lem g is (cities_text g ts tail) (next_word ts last) (behind_word g ts tail rest)
        (suc (length text)) ps buffer aux h a (AtName-cities g ts tail b t)
        (stops g ts tail last rest b t s) c
        (omega (arith, items-le-text g is (cities_text g ts tail) a)) in
    let read : StocksRead = record {
      stocks = r.stocks;
      products = r.products;
      buffer = r.buffer;
      aux = r.aux;
      last_word = next_word ts last;
      rest = behind_word g ts tail rest;
    } in
    subst (ReadsCities i ((city, is) ∷ ts) ps last rest buffer)
      (sym (
        ap
          (λ (x : Parsed StocksRead). x >>= λ (r : StocksRead).
            read_cities (length ts) (i + 1) (still_first first r.last_word) r.last_word r.rest
              r.products (buffer_after (length ts == 0) r) r.aux
            >>= λ more. put_city (make_city i city r) more)
          r.reads))
      (add_city buffer (buffer_after (length ts == 0) read) city is read
        (later_buffer is city ts last buffer read r.in_buffer refl) r.match r.keeps
        (others r.products (buffer_after (length ts == 0) read) r.aux r.catalogue))

no_cities :
    (i : ℕ) (first : Bool) (last : Option Name) (rest : List ℕ) (ps : List Product)
    (buffer : Option Name) (aux : Option ℤ)
    → IsCatalogue ps
    → ReadsCities i [] ps last rest buffer (read_cities 0 i first last rest ps buffer aux)
unfolding read_cities
no_cities i first last rest ps buffer aux c = record {
  cities = [];
  products = ps;
  buffer = buffer;
  aux = aux;
  reads = refl;
  match = tt;
  catalogue = c;
  keeps = record { at = λ i p e. e };
  in_buffer = refl;
}

cities_from :
    (g : List ℕ) (first : Bool) (i : ℕ) (city : Name) (is : List Item) (ts : List CityText)
    (tail : List ℕ) (last : Option Name) (rest : List ℕ) (ps : List Product) (buffer : Option Name)
    (aux : Option ℤ)
    → IsGap g
    → AreItems is
    → AreCities ts
    → AtName tail
    → StopsAt g tail last rest
    → IsCatalogue ps
    → ReadsCities i ((city, is) ∷ ts) ps last rest buffer (
        behind_name
          (length ts)
          i
          first
          ps
          buffer
          aux
          (city, stocks_text g is (cities_text g ts tail)))
unfolding read_cities
cities_from g first i city is [] tail last rest ps buffer aux h a b t s c =
    city_step g first i city is [] tail last rest ps buffer aux h a b t s c
      (λ qs b x c. no_cities (i + 1) (still_first first last) last rest qs b x c)
cities_from g first i city is ((name, js) ∷ ts) tail last rest ps buffer aux h a b t s c =
    city_step g first i city is ((name, js) ∷ ts) tail last rest ps buffer aux h a b t s c
      (λ qs b' x c'. cities_from g false (i + 1) name js ts tail last rest qs b' x h b.1 b.2 t s c')

-- The loop over the cities, at the text of one or more of them in front of a text that is empty or
-- begins with a word and no number: it gives the cities that the text describes.
pub read_cities_lem :
    (g : List ℕ) (city : Name) (is : List Item) (ts : List CityText) (tail : List ℕ)
    (last : Option Name) (rest : List ℕ)
    → IsGap g
    → IsName city
    → AreItems is
    → AreCities ts
    → AtName tail
    → StopsAt g tail last rest
    → IsCatalogue []
    → ReadsCities 0 ((city, is) ∷ ts) [] last rest none (
        read_cities
          (suc (length ts))
          0
          true
          none
          (cities_text g ((city, is) ∷ ts) tail)
          []
          none
          none)
unfolding read_cities name_of_city
read_cities_lem g city is ts tail last rest h n a b t s c =
    let text = stocks_text g is (cities_text g ts tail) in
    subst (ReadsCities 0 ((city, is) ∷ ts) [] last rest none)
      (sym (
        ap (λ (x : Parsed (Name × List ℕ)). x >>= behind_name (length ts) 0 true [] none none)
          (ap first_city_name (scan_word_lem city g text n h)
            ∙ if_true (ltb (length city) city_name_max_length) _ _ (fits city n)
            ∙ ap (λ r. parsed (city, r))
                (skip_IsGap g text h (
                  AtText-of_name text (
                    AtName-stocks g is (cities_text g ts tail) a (AtName-cities g ts tail b t)))))))
      (cities_from g true 0 city is ts tail last rest [] none none h a b t s c)
