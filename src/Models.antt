-- ===== src/Models.antt =====
-- models/: the products, stocks, cities, planes and the map that the simulation works on. A vector
-- of the source is a list, read by `getFromVector` (utils/vector.c); memory allocation succeeds.
pub mod Catalogue
use tp1_so_2c.Base.{
  ℕ, ◌&&◌, Bool, true, false, List, [], ◌∷◌, ◌++◌, Option, none, some, ◌==◌, ltb, length, get_elem?,
  if◌then◌else◌,
}
use tp1_so_2c.Base.Int.{ℤ, pos, negsuc}

-- The bytes of a C string, without the zero at its end.
abbrev pub Name : Type 0
Name = List ℕ

-- `CITY_NAME_MAX_LENGTH`, the size of the buffers for the names of cities and products.
abbrev pub city_name_max_length : ℕ
city_name_max_length = 30

-- `strcmp(a, b) == 0`
abbrev pub same_name : Name → Name → Bool
same_name [] [] = true
same_name [] (y ∷ ys) = false
same_name (x ∷ xs) [] = false
same_name (x ∷ xs) (y ∷ ys) = x == y && same_name xs ys

-- `Product`. A product is never changed once it is made, so a pointer to one is its value.
pub record Product : Type 0 where
  pub id : ℕ
  pub name : Name

-- `Stock`
pub record Stock : Type 0 where
  pub amount : ℤ
  pub product : Product

-- `City`
pub record City : Type 0 where
  pub name : Name
  pub id : ℕ
  pub stock : List Stock

-- `Map`. The matrix has one row for each city.
pub record Map : Type 0 where
  pub cities : List City
  pub product : List Product
  pub matrix : List (List ℕ)

-- `Plane`. `city_id` is what `getCityId` gave, so it may be -1.
pub record Plane : Type 0 where
  pub id : ℕ
  pub stocks : List Stock
  pub city_id : ℤ
  pub distance : ℕ

-- `Airline`. Its id is set behind `parseAirlines`, and `numberOfPlanes` is the number of its planes.
pub record Airline : Type 0 where
  pub id : ℕ
  pub planes : List Plane

abbrev pub minus_one : ℤ
minus_one = negsuc 0

-- `getFromVector` at an `int`. A negative one is converted to an unsigned index that no vector has.
-- `none` is the null pointer.
abbrev pub get_from_vector {ℓ} : {A : Type ℓ} → List A → ℤ → Option A
get_from_vector xs (pos i) = get_elem? xs i
get_from_vector xs (negsuc i) = none

-- `getProductId`
abbrev pub get_product_id : Name → List Product → ℤ
get_product_id name [] = minus_one
get_product_id name (p ∷ ps) = if same_name name p.name then pos p.id else get_product_id name ps

-- `getCityId`
abbrev pub get_city_id : Name → List City → ℤ
get_city_id name [] = minus_one
get_city_id name (c ∷ cs) = if same_name name c.name then pos c.id else get_city_id name cs

-- `getProductName`; `none` is the null pointer that it would read.
abbrev pub get_product_name : ℕ → List Product → Option Name
get_product_name id ps = elim (get_elem? ps id) [ none ↦ none | some p ↦ some p.name ]

-- The `strcpy` of `getProductName` into a buffer of 30 bytes. `none`: it writes past its end.
abbrev pub copied : Name → Option Name
copied name = if ltb (length name) city_name_max_length then some name else none

-- The end of `getProduct`: a new product goes to the end of the vector, and its index is its id.
abbrev pub add_product : Name → List Product → Option Product × List Product
add_product name ps =
    let p : Product = record { id = length ps; name = name } in (some p, ps ++ p ∷ [])

-- `getProduct`, with the vector that it leaves.
unfoldable pub get_product : Name → List Product → Option Product × List Product
get_product name ps = elim (get_product_id name ps) [
  | pos i ↦ (get_elem? ps i, ps)
  | negsuc _ ↦ add_product name ps
]

-- `initStock`, with the vector of products that it leaves. `none` stands for a stock whose product
-- is the null pointer.
unfoldable pub init_stock : Name → ℤ → List Product → Option Stock × List Product
unfolding get_product
init_stock name amount ps =
    let (p, ps') = get_product name ps in
    (elim p [ none ↦ none | some p ↦ some (record { amount = amount; product = p }) ], ps')

-- `initStockById`
pub init_stock_by_id : ℤ → ℤ → List Product → Option Stock
init_stock_by_id id amount ps = elim (get_from_vector ps id) [
  | none ↦ none
  | some p ↦ some (record { amount = amount; product = p })
]

-- `getDistance`; `none` is a read outside of the matrix.
abbrev pub get_distance : Map → ℕ → ℤ → Option ℕ
get_distance m city1 city2 = elim (get_elem? m.matrix city1) [
  | none ↦ none
  | some row ↦ get_from_vector row city2
]
