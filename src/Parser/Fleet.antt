-- ===== src/Parser/Fleet.antt =====
-- parser.c, `parseAirlines`: the text of an airline, and what is read of it.
pub mod Loop
use tp1_so_2c.Base.{
  ℕ, suc, ◌+◌, ◌≤◌, ◌≡◌, refl, ap, sym, ◌∙◌, subst, Bool, true, false, List, [], ◌∷◌, ◌++◌, Option,
  none, some, arith, ltb, length, length-append,
}
use tp1_so_2c.Base.Int.{ℤ}
use tp1_so_2c.Models.{Name, Product, City, Plane, get_city_id}
use tp1_so_2c.Models.Catalogue.{IsCatalogue}
use tp1_so_2c.Parser.{Parsed, parsed, ◌>>=◌, StocksRead, city_name_max_length}
use tp1_so_2c.Parser.Airlines.{
  as_unsigned, city_name_at, read_city_name, next_name, still_first, make_plane, plane_at,
  read_planes, parse_airlines,
}
use tp1_so_2c.Parser.Scanning.{
  IsGap, AtName, IsName, IsNumeral, value, AtText-of_name, AtName-name, if_true, fits, skip_IsGap,
  scan_word-gap, scan_number_numeral,
}
use tp1_so_2c.Parser.Stocks.{
  Item, AreItems, stocks_text, StopsAt, Match, Match-Keeps, Keeps, Keeps-trans, AtName-stocks,
  read_stocks_lem,
}

-- A plane as the file describes it: its city and its stocks.
abbrev pub PlaneText : Type 0
PlaneText = Name × List Item

abbrev pub ArePlanes : List PlaneText → Type 0
ArePlanes [] = Unit
ArePlanes ((city, is) ∷ ts) = IsName city × AreItems is × ArePlanes ts

abbrev pub planes_text : List ℕ → List PlaneText → List ℕ
planes_text g [] = []
planes_text g ((city, is) ∷ ts) = city ++ (g ++ stocks_text g is (planes_text g ts))

-- The planes are those of the text, numbered from `i` on.
abbrev pub PlanesMatch : List Product → List City → ℕ → List PlaneText → List Plane → Type 0
PlanesMatch ps cities i [] [] = Unit
PlanesMatch ps cities i ((city, is) ∷ ts) (p ∷ planes) =
    (p.id ≡ i)
    × (p.city_id ≡ get_city_id city cities)
    × (p.distance ≡ 0)
    × Match ps is p.stocks
    × PlanesMatch ps cities (i + 1) ts planes
PlanesMatch ps cities i _ _ = ⊥

-- What the loop over the planes leaves.
pub record ReadsPlanes (cities : List City) (i : ℕ) (ts : List PlaneText) (ps : List Product)
    (result : Parsed (List Plane × List Product)) : Type 0 where
  pub planes : List Plane
  pub products : List Product
  pub reads : result ≡ parsed (planes, products)
  pub match : PlanesMatch products cities i ts planes
  pub catalogue : IsCatalogue products
  pub keeps : Keeps ps products

AtName-planes : (g : List ℕ) (ts : List PlaneText) → ArePlanes ts → AtName (planes_text g ts)
AtName-planes g [] a = tt
AtName-planes g ((city, is) ∷ ts) a =
    AtName-name city (g ++ stocks_text g is (planes_text g ts)) a.0

-- The word at which the stocks of a plane end, and the text behind it.
abbrev next_city : List PlaneText → Option Name
next_city [] = none
next_city ((city, is) ∷ ts) = some city

abbrev behind_city : List ℕ → List PlaneText → List ℕ
behind_city g [] = []
behind_city g ((city, is) ∷ ts) = stocks_text g is (planes_text g ts)

stops :
    (g : List ℕ) (ts : List PlaneText)
    → ArePlanes ts
    → StopsAt g (planes_text g ts) (next_city ts) (behind_city g ts)
stops g [] a = (refl, refl)
stops g ((city, is) ∷ ts) a =
    (refl, a.0, AtName-stocks g is (planes_text g ts) a.1 (AtName-planes g ts a.2))

-- The text is long enough for the fuel that the parser takes.
pub items-le-text :
    (g : List ℕ) (is : List Item) (tail : List ℕ)
    → AreItems is
    → length is ≤ length (stocks_text g is tail)
items-le-text g [] tail a = omega arith
items-le-text g ((name, digits) ∷ is) tail a =
    some_byte name digits (stocks_text g is tail) a.0 (items-le-text g is tail a.2)
  where
    some_byte :
        (w ds rest : List ℕ)
        → IsName w
        → length is ≤ length rest
        → suc (length is) ≤ length (w ++ (g ++ (ds ++ (g ++ rest))))
    some_byte [] ds rest n le = absurd n
    some_byte (c ∷ w) ds rest n le = omega (
      arith,
      length-append w (g ++ (ds ++ (g ++ rest))),
      length-append g (ds ++ (g ++ rest)),
      length-append ds (g ++ rest),
      length-append g rest,
    )
