-- ===== src/Tests/Threads.antt =====
-- Runs of app/plane.c, app/airline.c and utils/vector.c, and their theorems at them.
use tp1_so_2c.Base.{ℕ, ◌≡◌, refl, Bool, true, false, List, [], ◌∷◌, none, arith}
use tp1_so_2c.Base.Int.{pos, ◌-ℤ◌}
use tp1_so_2c.Comm.{StockStateMessage, MessageType}
use tp1_so_2c.Plane.{PlaneThread, at_stock, on_message, read_all}
use tp1_so_2c.Plane.Flight.{no_end, turns, readies, flying, flight}
use tp1_so_2c.Airline.{stock_message}
use tp1_so_2c.Vector
use tp1_so_2c.Vector.Contents.{Holds, create-Holds, add-Holds, get_out_of_range}
use tp1_so_2c.Tests.{plane, aspirin, ibuprofen, rosario_stock}
use tp1_so_2c.Models.{Stock}
use tp1_so_2c.Marshall.{marshall_change_stock, marshall_stocks, prepare_header}
use tp1_so_2c.Simulation.Unload.{unload_all, unload_stock, find_stock, discharge}
use tp1_so_2c.Plane.Unloading.{unloaded, unload_reply}

flight_example : read_all (flying plane 4 3) (turns 3) ≡ (flying plane 4 0, readies 3)
flight_example = flight plane 4 3

-- The plane waits in Rosario for the answer to its request.
abbrev unloading : PlaneThread
unloading = record { plane = plane; airline = 4; done = false; place = at_stock }

abbrev left_in_city : List Stock
left_in_city =
    record { amount = pos 0; product = aspirin }
    ∷ record { amount = pos 30; product = ibuprofen }
    ∷ []

abbrev left_in_plane : List Stock
left_in_plane =
    record { amount = pos 30; product = aspirin }
    ∷ record { amount = pos 0; product = ibuprofen }
    ∷ []

abbrev answer : StockStateMessage
answer = record {
  header = record { type = MessageType.unload_stock; airline = 4; id = 3; city_id = pos 0 };
  stocks = record { count = 2; stock_id = 0 ∷ 1 ∷ []; quantities = pos 30 ∷ pos 0 ∷ [] };
}

unload_reply_example :
    on_message at_stock no_end unloading (stock_message answer) ≡ unloaded unloading left_in_plane
unfolding unload_all unload_stock find_stock discharge ◌-ℤ◌ marshall_change_stock marshall_stocks
    prepare_header
unload_reply_example =
    unload_reply unloading rosario_stock left_in_city left_in_plane 4 3 (pos 0) answer (omega arith)
      (omega arith) (omega arith) refl refl

abbrev one_added : Vector.Vector ℕ
one_added = (Vector.add true Vector.create 7).0

one_added-Holds : Holds one_added (7 ∷ [])
one_added-Holds = (add-Holds 7 create-Holds).0

get_out_of_range_example :
    ((Vector.get one_added 1).1 ≡ Vector.returns none)
    × ((j : ℕ)
        → Vector.get (Vector.get one_added 1).0 j ≡ ((Vector.get one_added 1).0, Vector.waits))
    × ((realloc_ok : Bool) (x : ℕ)
        → Vector.add realloc_ok (Vector.get one_added 1).0 x
          ≡ ((Vector.get one_added 1).0, Vector.waits))
get_out_of_range_example = get_out_of_range 1 one_added-Holds (omega arith)
