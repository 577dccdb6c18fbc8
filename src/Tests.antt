-- ===== src/Tests.antt =====
-- The small world of the tests: two cities, three products, and planes that carry some of them.
mod Queue
mod Unloading
mod Turns
mod Memory
mod Roads
mod Threads
mod Config
mod Transports
mod Connections
mod Screen
mod Safety
mod Keys
mod Stages
mod Setups
mod Logs
use tp1_so_2c.Base.{ℕ, List, [], ◌∷◌}
use tp1_so_2c.Base.Int.{pos}
use tp1_so_2c.Models.{Name, Product, Stock, City, Map, Plane}

abbrev aspirin_name : Name
aspirin_name = b'a' ∷ b's' ∷ []

abbrev pub aspirin : Product
aspirin = record { id = 0; name = aspirin_name }

abbrev pub ibuprofen : Product
ibuprofen = record { id = 1; name = b'i' ∷ b'b' ∷ [] }

abbrev pub curare : Product
curare = record { id = 2; name = b'c' ∷ b'u' ∷ [] }

abbrev pub products : List Product
products = aspirin ∷ ibuprofen ∷ curare ∷ []

abbrev pub rosario_stock : List Stock
rosario_stock =
    record { amount = pos 100; product = aspirin }
    ∷ record { amount = pos 50; product = ibuprofen }
    ∷ []

abbrev pub rosario : City
rosario = record { name = b'R' ∷ []; id = 0; stock = rosario_stock }

abbrev pub cordoba : City
cordoba = record {
  name = b'C' ∷ [];
  id = 1;
  stock = record { amount = pos 20; product = curare } ∷ [];
}

abbrev pub world : Map
world = record {
  cities = rosario ∷ cordoba ∷ [];
  product = products;
  matrix = (0 ∷ 10 ∷ []) ∷ (10 ∷ 0 ∷ []) ∷ [];
}

-- A plane in Rosario with more aspirin and less ibuprofen than the city needs.
abbrev pub load : List Stock
load =
    record { amount = pos 130; product = aspirin }
    ∷ record { amount = pos 20; product = ibuprofen }
    ∷ []

abbrev pub plane : Plane
plane = record { id = 3; stocks = load; city_id = pos 0; distance = 0 }
