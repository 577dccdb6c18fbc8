-- ===== src/Parser/Fleet/Loop.antt =====
-- parser.c, `parseAirlines`: the rounds of the loop over the planes.
use tp1_so_2c.Base.{
  ℕ, suc, ◌+◌, ◌≡◌, refl, ap, sym, ◌∙◌, subst, Bool, true, false, List, [], ◌∷◌, ◌++◌, Option, none,
  some, arith, ltb, length,
}
use tp1_so_2c.Base.Int.{ℤ}
use tp1_so_2c.Models.{Name, Product, City, Plane}
use tp1_so_2c.Models.Catalogue.{IsCatalogue}
use tp1_so_2c.Parser.{Parsed, parsed, ◌>>=◌, StocksRead, city_name_max_length}
use tp1_so_2c.Parser.Airlines.{
  as_unsigned, city_name_at, read_city_name, next_name, still_first, make_plane, plane_at,
  read_planes, parse_airlines,
}
use tp1_so_2c.Parser.Scanning.{
  IsGap, AtName, IsName, IsNumeral, value, AtText-of_name, if_true, fits, skip_IsGap, scan_word-gap,
  scan_number_numeral,
}
use tp1_so_2c.Parser.Stocks.{
  Item, AreItems, stocks_text, Match, Match-Keeps, Keeps, Keeps-trans, AtName-stocks,
  read_stocks_lem,
}
use tp1_so_2c.Parser.Fleet.{
  PlaneText, ArePlanes, planes_text, ReadsPlanes, AtName-planes, next_city, behind_city, stops,
  items-le-text,
}

add_plane :
    {cities : List City} {i : ℕ} {ts : List PlaneText} {ps qs : List Product}
    {next : Parsed (List Plane × List Product)} (city : Name) (is : List Item) (r : StocksRead)
    → Match qs is r.stocks
    → Keeps ps qs
    → ReadsPlanes cities (i + 1) ts qs next
    → ReadsPlanes cities i
        ((city, is) ∷ ts)
        ps
        (next >>= λ more. parsed (make_plane i city cities r ∷ more.0, more.1))
add_plane {cities} {i} {ts} {ps} {qs} {next} city is r m k more = record {
  planes = make_plane i city cities r ∷ more.planes;
  products = more.products;
  reads = ap (λ x. x >>= λ more. parsed (make_plane i city cities r ∷ more.0, more.1)) more.reads;
  match = (refl, refl, refl, Match-Keeps is r.stocks more.keeps m, more.match);
  catalogue = more.catalogue;
  keeps = Keeps-trans k more.keeps;
}

-- The body of the loop at a plane, if the loop behind it reads the other planes.
plane_step :
    (g : List ℕ) (first : Bool) (i : ℕ) (cities : List City) (city : Name) (is : List Item)
    (ts : List PlaneText) (ps : List Product)
    → IsGap g
    → AreItems is
    → ArePlanes ts
    → IsCatalogue ps
    → ((qs : List Product)
        → IsCatalogue qs
        → ReadsPlanes cities (i + 1) ts qs (
            read_planes
              (length ts)
              (i + 1)
              (still_first first (next_city ts))
              (some (next_name city (next_city ts)))
              cities
              (behind_city g ts)
              qs))
    → ReadsPlanes cities i ((city, is) ∷ ts) ps (
        plane_at i cities
          (λ c s.
            read_planes
              (length ts)
              (i + 1)
              (still_first first s.last_word)
              (some (next_name c s.last_word))
              cities
              s.rest
              s.products)
          (some city)
          (stocks_text g is (planes_text g ts))
          ps)
unfolding plane_at
plane_step g first i cities city is ts ps h a b c others =
    let text = stocks_text g is (planes_text g ts) in
    let r =
      read_stocks_lem g is (planes_text g ts) (next_city ts) (behind_city g ts) (suc (length text))
        ps none none h a (AtName-planes g ts b) (stops g ts b) c
        (omega (arith, items-le-text g is (planes_text g ts) a)) in
    subst (ReadsPlanes cities i ((city, is) ∷ ts) ps)
      (sym (
        ap
          (λ (x : Parsed StocksRead). x >>= λ (s : StocksRead).
            read_planes (length ts) (i + 1) (still_first first s.last_word)
              (some (next_name city s.last_word)) cities s.rest s.products
            >>= λ more. parsed (make_plane i city cities s ∷ more.0, more.1))
          r.reads))
      (add_plane city is
        (record {
          stocks = r.stocks;
          products = r.products;
          buffer = r.buffer;
          aux = r.aux;
          last_word = next_city ts;
          rest = behind_city g ts;
        })
        r.match r.keeps (others r.products r.catalogue))

no_planes :
    (cities : List City) (i : ℕ) (first : Bool) (name : Option Name) (input : List ℕ)
    (ps : List Product)
    → IsCatalogue ps
    → ReadsPlanes cities i [] ps (read_planes 0 i first name cities input ps)
unfolding read_planes
no_planes cities i first name input ps c = record {
  planes = [];
  products = ps;
  reads = refl;
  match = tt;
  catalogue = c;
  keeps = record { at = λ i p e. e };
}

planes_from :
    (g : List ℕ) (first : Bool) (i : ℕ) (cities : List City) (city : Name) (is : List Item)
    (ts : List PlaneText) (ps : List Product)
    → IsGap g
    → AreItems is
    → ArePlanes ts
    → IsCatalogue ps
    → ReadsPlanes cities i ((city, is) ∷ ts) ps (
        plane_at i cities
          (λ c s.
            read_planes
              (length ts)
              (i + 1)
              (still_first first s.last_word)
              (some (next_name c s.last_word))
              cities
              s.rest
              s.products)
          (some city)
          (stocks_text g is (planes_text g ts))
          ps)
unfolding read_planes
planes_from g first i cities city is [] ps h a b c =
    plane_step g first i cities city is [] ps h a b c
      (λ qs c. no_planes cities (i + 1) first (some city) [] qs c)
planes_from g first i cities city is ((city', is') ∷ ts) ps h a b c =
    plane_step g first i cities city is ((city', is') ∷ ts) ps h a b c
      (λ qs c. planes_from g false (i + 1) cities city' is' ts qs h b.1 b.2 c)

read_city_name_lem :
    (g city rest : List ℕ) (old : Option Name)
    → IsGap g
    → IsName city
    → AtName rest
    → read_city_name old (g ++ (city ++ (g ++ rest))) ≡ parsed (some city, rest)
unfolding read_city_name
read_city_name_lem g city rest old h n a =
    ap (city_name_at old) (scan_word-gap city g rest n h)
    ∙ if_true (ltb (length city) city_name_max_length) _ _ (fits city n)
    ∙ ap (λ r. parsed (some city, r)) (skip_IsGap g rest h (AtText-of_name rest a))

all_planes :
    (g : List ℕ) (cities : List City) (ts : List PlaneText) (ps : List Product)
    → IsGap g
    → ArePlanes ts
    → IsCatalogue ps
    → ReadsPlanes cities 0 ts ps
        (read_planes (length ts) 0 true none cities (g ++ planes_text g ts) ps)
unfolding read_planes
all_planes g cities [] ps h a c = no_planes cities 0 true none (g ++ []) ps c
all_planes g cities ((city, is) ∷ ts) ps h a c =
    let text = stocks_text g is (planes_text g ts) in
    subst (ReadsPlanes cities 0 ((city, is) ∷ ts) ps)
      (sym (
        ap
          (λ (x : Parsed (Option Name × List ℕ)). x >>= λ r.
            plane_at 0 cities
              (λ n s.
                read_planes (length ts) (0 + 1) (still_first true s.last_word)
                  (some (next_name n s.last_word)) cities s.rest s.products)
              r.0 r.1 ps)
          (read_city_name_lem g city text none h a.0
            (AtName-stocks g is (planes_text g ts) a.1 (AtName-planes g ts a.2)))))
      (planes_from g true 0 cities city is ts ps h a.1 a.2 c)

-- `parseAirlines` on the number of the planes, with as many planes behind it, each of a city and of some
-- stocks, with one gap between all words: it gives the planes of the text, numbered from 0 on, with
-- the ids of their cities and no distance to go. Their products stand at their ids in the vector that is
-- left, in which no product of the old one has moved.
pub parse_airlines_lem :
    (g count : List ℕ) (ts : List PlaneText) (cities : List City) (ps : List Product)
    → IsGap g
    → IsNumeral count
    → value 0 count ≡ length ts
    → ArePlanes ts
    → IsCatalogue ps
    → ReadsPlanes cities 0 ts ps (parse_airlines (count ++ (g ++ planes_text g ts)) cities ps)
unfolding parse_airlines
parse_airlines_lem g count ts cities ps h d n a c =
    subst (ReadsPlanes cities 0 ts ps)
      (sym (
        ap (λ (r : Option ℤ × List ℕ). read_planes (as_unsigned r.0) 0 true none cities r.1 ps)
          (scan_number_numeral [] count g (planes_text g ts) tt d h)
        ∙ ap (λ k. read_planes k 0 true none cities (g ++ planes_text g ts) ps) n))
      (all_planes g cities ts ps h a c)
