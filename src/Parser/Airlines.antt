-- ===== src/Parser/Airlines.antt =====
-- parser.c, `parseAirlines`.
use tp1_so_2c.Base.{
  ℕ, zero, suc, ◌+◌, ◌-◌, ◌^◌, Bool, true, false, List, [], ◌∷◌, Option, none, some, length,
  if◌then◌else◌,
}
use tp1_so_2c.Base.Int.{ℤ, pos, negsuc}
use tp1_so_2c.Models.{Name, Product, City, Plane, get_city_id}
use tp1_so_2c.Parser.{
  skip_space, scan_word, scan_number, Parsed, parsed, fault, ◌>>=◌, into_buffer, StocksRead,
  read_stocks,
}

-- `fscanf(pFile, "%u", &number)`, where the number is 0 if there is none to read.
abbrev pub as_unsigned : Option ℤ → ℕ
as_unsigned none = 0
as_unsigned (some (pos n)) = n
as_unsigned (some (negsuc n)) = 2 ^ 32 - (n + 1)

-- What becomes of `cityName` and of the file: the name stays at the end of the file.
abbrev pub city_name_at : Option Name → Option (List ℕ × List ℕ) → Parsed (Option Name × List ℕ)
city_name_at old none = parsed (old, [])
city_name_at old (some (word, after)) = into_buffer word (parsed (some word, skip_space after))

-- `fscanf(pFile, "%s\n", cityName)`. A name that is `none` is never set.
unfoldable pub read_city_name : Option Name → List ℕ → Parsed (Option Name × List ℕ)
unfolding scan_word
read_city_name old input = city_name_at old (scan_word input)

-- What `cityName` is for the next plane.
abbrev pub next_name : Name → Option Name → Name
next_name name none = name
next_name name (some word) = word

-- `flag` for the next plane: whether it is still FIRST.
abbrev pub still_first : Bool → Option Name → Bool
still_first first none = first
still_first first (some word) = false

abbrev pub make_plane : ℕ → Name → List City → StocksRead → Plane
make_plane i name cities r = record {
  id = i;
  stocks = r.stocks;
  city_id = get_city_id name cities;
  distance = 0;
}

-- The body of the loop over the planes behind the name of the city; `next` is what follows.
unfoldable pub plane_at :
    ℕ
    → List City
    → (Name → StocksRead → Parsed (List Plane × List Product))
    → Option Name
    → List ℕ
    → List Product
    → Parsed (List Plane × List Product)
unfolding read_stocks
plane_at i cities next none input ps = fault
plane_at i cities next (some name) input ps =
    read_stocks (suc (length input)) input ps none none >>= λ r.
    next name r >>= λ more. parsed (make_plane i name cities r ∷ more.0, more.1)

-- The loop over the planes: how many are left, the index, whether `flag` is FIRST, `cityName`, the file
-- and the products.
unfoldable pub read_planes :
    ℕ
    → ℕ
    → Bool
    → Option Name
    → List City
    → List ℕ
    → List Product
    → Parsed (List Plane × List Product)
unfolding read_city_name plane_at
read_planes zero i first name cities input ps = parsed ([], ps)
read_planes (suc left) i first name cities input ps =
    (if first then read_city_name name input else parsed (name, input)) >>= λ r.
    plane_at i cities
      (λ city s.
        read_planes left (i + 1) (still_first first s.last_word) (some (next_name city s.last_word))
          cities s.rest s.products)
      r.0 r.1 ps

-- `parseAirlines`, with the vector of products that it leaves.
unfoldable pub parse_airlines :
    List ℕ → List City → List Product → Parsed (List Plane × List Product)
unfolding scan_number read_planes
parse_airlines file cities ps =
    read_planes (as_unsigned (scan_number file).0) 0 true none cities (scan_number file).1 ps
