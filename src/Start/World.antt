-- ===== src/Start/World.antt =====
-- parser.c and app/main.c: the map that is read, as `runMap` takes it.
use tp1_so_2c.Base.{
  ℕ, zero, suc, ◌+◌, ◌≤◌, ◌<◌, ◌≡◌, ◌≢◌, refl, ap, sym, ◌∙◌, subst, Bool, true, false, List, [],
  ◌∷◌, ◌++◌, some, some_inj, length, length-replicate, replicate, get_elem?, arith, ◌==◌, ◌||◌, ltb,
  if◌then◌else◌,
}
use tp1_so_2c.Base.Places.{get_elem?-exists}
use tp1_so_2c.Base.Int.{pos}
use tp1_so_2c.Models.{Name, Product, Stock, City, Map, Airline, get_distance}
use tp1_so_2c.Models.Catalogue.{IsCatalogue}
use tp1_so_2c.Routes.{Matrix, cell, detour, relax, loop_j, loop_i, loop_k, floyd_matrix}
use tp1_so_2c.Routes.Square.{AllLong, IsSquare, set_cell-IsSquare}
use tp1_so_2c.Routes.Walks.{Walk, floyd_matrix-Walk}
use tp1_so_2c.Routes.Shortest.{floyd_matrix_shortest}
use tp1_so_2c.Start.Ways.{AllApart, text_ways-home}
use tp1_so_2c.Simulation.Turn.Sound.{AreStocked, IsSound}
use tp1_so_2c.Parser.{Parsed, parsed}
use tp1_so_2c.Parser.Scanning.{IsGap, IsNumeral, value}
use tp1_so_2c.Parser.Stocks.{Item, Match}
use tp1_so_2c.Parser.Cities.{CityText, AreCities, cities_text, CitiesMatch}
use tp1_so_2c.Parser.Links.{Link, AreLinks, links_text, place, join_cells, link_ways}
use tp1_so_2c.Parser.World.{text_ways}
use tp1_so_2c.Start.{read_folder}
use tp1_so_2c.Start.Folder.{FileText, AreFiles, folder, read_folder_lem}

either : {A : Type 0} (P : A → Type 0) (b : Bool) (x y : A) → P x → P y → P (if b then x else y)
either P true x y p q = p
either P false x y p q = q

module _ (counter : ℕ) where
  relax-IsSquare : (m : Matrix) (k i j : ℕ) → IsSquare counter m → IsSquare counter (relax m k i j)
  unfolding relax
  relax-IsSquare m k i j s = either (IsSquare counter) (detour m k i j == 0) m _ s (
      either (IsSquare counter) (i == j) m _ s (
        either (IsSquare counter) (cell m i j == 0 || ltb (detour m k i j) (cell m i j)) _ m
          (set_cell-IsSquare i j (detour m k i j) s) s))

  loop_j-IsSquare :
      (left : ℕ) (m : Matrix) (k i j : ℕ)
      → IsSquare counter m
      → IsSquare counter (loop_j left m k i j)
  unfolding loop_j
  loop_j-IsSquare zero m k i j s = s
  loop_j-IsSquare (suc left) m k i j s =
      loop_j-IsSquare left (relax m k i j) k i (j + 1) (relax-IsSquare m k i j s)

  loop_i-IsSquare :
      (left n : ℕ) (m : Matrix) (k i : ℕ)
      → IsSquare counter m
      → IsSquare counter (loop_i left n m k i)
  unfolding loop_i
  loop_i-IsSquare zero n m k i s = s
  loop_i-IsSquare (suc left) n m k i s =
      loop_i-IsSquare left n (loop_j n m k i 0) k (i + 1) (loop_j-IsSquare n m k i 0 s)

  loop_k-IsSquare :
      (left n : ℕ) (m : Matrix) (k : ℕ) → IsSquare counter m → IsSquare counter (loop_k left n m k)
  unfolding loop_k
  loop_k-IsSquare zero n m k s = s
  loop_k-IsSquare (suc left) n m k s =
      loop_k-IsSquare left n (loop_i n n m k 0) (k + 1) (loop_i-IsSquare n n m k 0 s)

  floyd_matrix-IsSquare :
      (m : Matrix) (n : ℕ) → IsSquare counter m → IsSquare counter (floyd_matrix m n)
  unfolding floyd_matrix
  floyd_matrix-IsSquare m n s = loop_k-IsSquare n n m 0 s

  AllLong-replicate : (n : ℕ) → AllLong counter (replicate n (replicate counter 0))
  AllLong-replicate zero = tt
  AllLong-replicate (suc n) = (length-replicate counter 0, AllLong-replicate n)

  link_ways-IsSquare :
      (ts : List CityText) (m : Matrix) (ls : List Link)
      → IsSquare counter m
      → IsSquare counter (link_ways ts m ls)
  link_ways-IsSquare ts m [] s = s
  link_ways-IsSquare ts m ((from, to, digits) ∷ ls) s =
      link_ways-IsSquare ts (join_cells m (place from ts 0) (place to ts 0) (value 0 digits)) ls (
        set_cell-IsSquare (place to ts 0) (place from ts 0) (value 0 digits)
          (set_cell-IsSquare (place from ts 0) (place to ts 0) (value 0 digits) s))

  AllLong-row :
      (m : Matrix) (i : ℕ) (row : List ℕ)
      → AllLong counter m
      → get_elem? m i ≡ some row
      → length row ≡ counter
  AllLong-row [] i row a e = cc
  AllLong-row (r ∷ m) zero row a e = ap length (sym (some_inj e)) ∙ a.0
  AllLong-row (r ∷ m) (suc i) row a e = AllLong-row m i row a.1 e

  square_distance :
      (m : Map) (i j : ℕ)
      → IsSquare counter m.matrix
      → i < counter
      → j < counter
      → (d : ℕ) × (get_distance m i (pos j) ≡ some d)
  square_distance m i j s hi hj =
      let (row, at) = get_elem?-exists m.matrix i (omega (arith, s.rows, hi)) in
      let (d, cell) =
        get_elem?-exists row j (omega (arith, AllLong-row m.matrix i row s.columns at, hj)) in
      (d, rw (at, get_distance, cell))

-- Every city of a text has a stock.
abbrev pub AllHaveStocks : List CityText → Type 0
AllHaveStocks [] = Unit
AllHaveStocks ((city, is) ∷ ts) = (0 < length is) × AllHaveStocks ts

length-Match :
    (ps : List Product) (is : List Item) (ss : List Stock) → Match ps is ss → length ss ≡ length is
length-Match ps [] [] m = refl
length-Match ps [] (s ∷ ss) m = absurd m
length-Match ps (i ∷ is) [] m = absurd m
length-Match ps ((name, digits) ∷ is) (s ∷ ss) m = ap suc (length-Match ps is ss m.3)

length-CitiesMatch :
    (ps : List Product) (i : ℕ) (ts : List CityText) (cs : List City)
    → CitiesMatch ps i ts cs
    → length cs ≡ length ts
length-CitiesMatch ps i [] [] m = refl
length-CitiesMatch ps i [] (c ∷ cs) m = absurd m
length-CitiesMatch ps i (t ∷ ts) [] m = absurd m
length-CitiesMatch ps i ((name, is) ∷ ts) (c ∷ cs) m =
    ap suc (length-CitiesMatch ps (i + 1) ts cs m.3)

CitiesMatch-AreStocked :
    (ps : List Product) (n i : ℕ) (ts : List CityText) (cs : List City)
    → CitiesMatch ps i ts cs
    → AllHaveStocks ts
    → i + length ts ≤ n
    → AreStocked n cs
CitiesMatch-AreStocked ps n i [] [] m h le = tt
CitiesMatch-AreStocked ps n i [] (c ∷ cs) m h le = absurd m
CitiesMatch-AreStocked ps n i (t ∷ ts) [] m h le = absurd m
CitiesMatch-AreStocked ps n i ((name, is) ∷ ts) (c ∷ cs) m h le = (
  omega (arith, m.1, le),
  omega (arith, length-Match ps is c.stock m.2, h.0),
  CitiesMatch-AreStocked ps n (i + 1) ts cs m.3 h.1 (omega (arith, le)),
)

text_ways-IsSquare : (ts : List CityText) (ls : List Link) → IsSquare (length ts) (text_ways ts ls)
text_ways-IsSquare ts ls = link_ways-IsSquare (length ts) ts _ ls (record {
  rows = length-replicate (length ts) (replicate (length ts) 0);
  columns = AllLong-replicate (length ts) (length ts);
})

world-IsSound :
    (ts : List CityText) (ls : List Link) (m : Map)
    → CitiesMatch m.product 0 ts m.cities
    → IsCatalogue m.product
    → m.matrix ≡ floyd_matrix (text_ways ts ls) (length ts)
    → AllHaveStocks ts
    → IsSound m
world-IsSound ts ls m match catalogue matrix h =
    let size = length-CitiesMatch m.product 0 ts m.cities match in
    let square : IsSquare (length ts) m.matrix = subst (IsSquare (length ts)) (sym matrix) (
      floyd_matrix-IsSquare (length ts) (text_ways ts ls) (length ts) (text_ways-IsSquare ts ls)) in
    record {
      catalogue = catalogue;
      stocked =
          CitiesMatch-AreStocked m.product (length m.cities) 0 ts m.cities match h
            (omega (arith, size));
      distances = λ i j x y.
          square_distance (length ts) m i j square (omega (arith, x, size))
            (omega (arith, y, size));
    }

-- What `main` reads of a folder is a sound map, in which the distance of two different cities is that of the
-- shortest walk along the ways of the text, and 0 if no walk joins them.
pub record StartsSound (ways : Matrix) (result : Parsed (Map × List Airline)) : Type 0 where
  pub world : Map
  pub airlines : List Airline
  pub reads : result ≡ parsed (world, airlines)
  pub sound : IsSound world
  pub walked : (i j : ℕ) → cell world.matrix i j ≢ 0 → Walk ways i j (cell world.matrix i j)
  pub least :
      (i j w : ℕ)
      → i ≢ j
      → Walk ways i j w
      → (cell world.matrix i j ≢ 0) × (cell world.matrix i j ≤ w)

-- `main`, on a configuration folder as `read_folder_lem` has it in which every city has a stock and no way is
-- from a city to itself, reads a map that is sound: every product stands at its id and has a short name of
-- its own, every city has a stock and a number below that of the cities, and the matrix has a cell for each
-- two cities. The cell of two different cities that a walk along the ways of the text joins is the length of
-- a shortest such walk; a cell that is not 0 is the length of such a walk.
pub read_folder_sound :
    (g count : List ℕ) (city : Name) (is : List Item) (ts : List CityText) (from to digits : List ℕ)
    (ls : List Link) (fs : List FileText)
    → IsGap g
    → IsNumeral count
    → value 0 count ≡ suc (length ts)
    → AreCities ((city, is) ∷ ts)
    → AllHaveStocks ((city, is) ∷ ts)
    → AreLinks ((city, is) ∷ ts) ((from, to, digits) ∷ ls)
    → AllApart ((city, is) ∷ ts) ((from, to, digits) ∷ ls)
    → AreFiles fs
    → StartsSound (text_ways ((city, is) ∷ ts) ((from, to, digits) ∷ ls)) (
        read_folder
          (some (
            count
            ++ (g ++ cities_text g ((city, is) ∷ ts) (links_text g ((from, to, digits) ∷ ls)))))
          (folder fs))
read_folder_sound g count city is ts from to digits ls fs h d n a st w apart f =
    let r = read_folder_lem g count city is ts from to digits ls fs h d n a w f in
    let ways = text_ways ((city, is) ∷ ts) ((from, to, digits) ∷ ls) in
    let size = length ((city, is) ∷ ts) in
    record {
      world = r.world;
      airlines = r.airlines;
      reads = r.reads;
      sound =
          world-IsSound ((city, is) ∷ ts) ((from, to, digits) ∷ ls) r.world r.cities r.catalogue
            r.matrix st;
      walked = λ i j.
          subst (λ m. cell m i j ≢ 0 → Walk ways i j (cell m i j)) (sym r.matrix)
            (floyd_matrix-Walk ways size i j);
      least = λ i j v differ walk.
          subst (λ m. (cell m i j ≢ 0) × (cell m i j ≤ v)) (sym r.matrix)
            (floyd_matrix_shortest ways size i j v
              (text_ways-IsSquare ((city, is) ∷ ts) ((from, to, digits) ∷ ls))
              (λ b. text_ways-home ((city, is) ∷ ts) ((from, to, digits) ∷ ls) b apart) differ
              walk);
    }
