-- ===== src/Parser/Maps.antt =====
-- parser.c, `parseMap`.
use tp1_so_2c.Base.{
  ℕ, zero, suc, ◌+◌, Bool, true, false, List, [], ◌∷◌, Option, none, some, ◌==◌, ltb, length,
  replicate, if◌then◌else◌,
}
use tp1_so_2c.Base.Int.{ℤ, pos, negsuc}
use tp1_so_2c.Models.{Name, Product, City, Map, get_city_id}
use tp1_so_2c.Routes.{Matrix, set_cell, floyd_matrix}
use tp1_so_2c.Parser.{
  skip_space, scan_word, scan_number, scan_pair, PairScan, no_word, one_word, pair, Parsed, parsed,
  fault, unset_word, failed, negative_way, out_of_fuel, ◌>>=◌, into_buffer, StocksRead, read_stocks,
}
use tp1_so_2c.Parser.Airlines.{still_first}

-- What the loop over the cities leaves.
pub record CitiesRead : Type 0 where
  pub cities : List City
  pub products : List Product
  pub buffer : Option Name
  pub aux : Option ℤ
  pub rest : List ℕ

-- The name of a city: read from the file for the first, and else the word at which the stocks of the
-- city before it ended. A name that is never set counts as a fault.
abbrev pub first_city_name : Option (List ℕ × List ℕ) → Parsed (Name × List ℕ)
first_city_name none = fault
first_city_name (some (word, after)) = into_buffer word (parsed (word, skip_space after))

unfoldable pub name_of_city : Bool → Option Name → List ℕ → Parsed (Name × List ℕ)
unfolding scan_word
name_of_city true pending input = first_city_name (scan_word input)
name_of_city false none input = fault
name_of_city false (some word) input = parsed (word, input)

-- `buffer` when a city is read: it is emptied if it has given the next city its name.
abbrev pub buffer_after : (last : Bool) → StocksRead → Option Name
buffer_after last r =
    if last then r.buffer else elim r.last_word [ none ↦ r.buffer | some word ↦ some [] ]

abbrev pub make_city : ℕ → Name → StocksRead → City
make_city i name r = record { name = name; id = i; stock = r.stocks }

-- A city in front of those that are read behind it.
abbrev pub put_city : City → CitiesRead → Parsed CitiesRead
put_city c more = parsed (record more { cities = c ∷ more.cities })

-- The loop over the cities: how many are left, the index, whether `flag` is FIRST, the name of the next
-- city, the file, the products, `buffer` and `aux`.
unfoldable pub read_cities :
    ℕ → ℕ → Bool → Option Name → List ℕ → List Product → Option Name → Option ℤ → Parsed CitiesRead
unfolding name_of_city read_stocks
read_cities zero i first pending input ps buffer aux =
    parsed (record { cities = []; products = ps; buffer = buffer; aux = aux; rest = input })
read_cities (suc left) i first pending input ps buffer aux =
    name_of_city first pending input >>= λ n.
    read_stocks (suc (length n.1)) n.1 ps buffer aux >>= λ r.
    read_cities left (i + 1) (still_first first r.last_word) r.last_word r.rest r.products
      (buffer_after (left == 0) r) r.aux
    >>= λ more. put_city (make_city i n.0 r) more

-- The two writes of a distance into the matrix.
unfoldable pub set_way : Matrix → ℤ → ℤ → ℤ → Parsed Matrix
set_way m (pos i) (pos j) (pos d) =
    if ltb i (length m)
    then if ltb j (length m) then parsed (set_cell (set_cell m i j d) j i d) else fault
    else fault
set_way m (pos i) (pos j) (negsuc d) = negative_way
set_way m _ _ _ = fault

-- The test of the loop over the ways, which reads `%s %s %d\n`, behind its first word; `next` is the
-- body of the loop and what follows.
abbrev pub link_at : (Name → ℤ → List ℕ → Parsed Matrix) → Matrix → PairScan → Parsed Matrix
link_at next m no_word = parsed m
link_at next m (one_word to rest) = into_buffer to (parsed m)
link_at next m (pair to d rest) = into_buffer to (next to d rest)

abbrev pub next_link :
    (Name → Name → ℤ → List ℕ → Parsed Matrix) → Matrix → Option (List ℕ × List ℕ) → Parsed Matrix
next_link next m none = parsed m
next_link next m (some (from, after)) =
    into_buffer from (link_at (λ to d rest. next from to d rest) m (scan_pair after))

-- The loop over the ways, with fuel for the bytes of the file.
unfoldable pub read_links : ℕ → List City → Matrix → Name → Name → ℤ → List ℕ → Parsed Matrix
unfolding set_way scan_pair scan_word
read_links zero cities m from to d input = out_of_fuel
read_links (suc fuel) cities m from to d input =
    set_way m (get_city_id from cities) (get_city_id to cities) d >>= λ m'.
    next_link (λ a b e rest. read_links fuel cities m' a b e rest) m' (scan_word input)

-- The first way, of which `from` is read already. If there is no number, `aux` is that of the last stock.
abbrev pub first_way : List City → Matrix → Name → Option ℤ → PairScan → Parsed Matrix
first_way cities m from aux no_word = unset_word from
first_way cities m from none (one_word to rest) = into_buffer to fault
first_way cities m from (some d) (one_word to rest) =
    into_buffer to (read_links (suc (length rest)) cities m from to d rest)
first_way cities m from aux (pair to d rest) =
    into_buffer to (read_links (suc (length rest)) cities m from to d rest)

-- The ways, if `buffer` holds a word.
unfoldable pub read_ways : List City → Matrix → Option Name → Option ℤ → List ℕ → Parsed Matrix
unfolding read_links scan_pair
read_ways cities m none aux input = fault
read_ways cities m (some []) aux input = parsed m
read_ways cities m (some (c ∷ from)) aux input = first_way cities m (c ∷ from) aux (scan_pair input)

-- `parseMap` behind the number of the cities.
unfoldable pub parse_cities : ℕ → List ℕ → Parsed Map
unfolding read_cities read_ways
parse_cities counter input = read_cities counter 0 true none input [] none none >>= λ r.
    read_ways r.cities (replicate counter (replicate counter 0)) r.buffer r.aux r.rest >>= λ m.
    parsed (record { cities = r.cities; product = r.products; matrix = floyd_matrix m counter })

-- `parseMap` on a file, if there is one. The allocation of a negative number of cities fails.
abbrev pub cities_behind : Option ℤ × List ℕ → Parsed Map
cities_behind (none, rest) = fault
cities_behind (some (pos counter), rest) = parse_cities counter (skip_space rest)
cities_behind (some (negsuc n), rest) = failed

unfoldable pub parse_map : Option (List ℕ) → Parsed Map
unfolding scan_number parse_cities
parse_map none = failed
parse_map (some file) = cities_behind (scan_number file)
