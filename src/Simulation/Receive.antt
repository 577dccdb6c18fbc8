-- ===== src/Simulation/Receive.antt =====
-- app/map.c, `initPlane`: the plane that a message of an airline speaks of.
use tp1_so_2c.Base.{ℕ, zero, suc, List, [], ◌∷◌, Option, none, some, ◌>>=◌}
use tp1_so_2c.Base.Int.{ℤ}
use tp1_so_2c.Comm.{PlaneMessageHeader, StockMessagePart}
use tp1_so_2c.Models.{copied, Product, Stock, Map, Plane, get_product_name, init_stock}

-- The loop over the entries of the message, `count` of them: each product id becomes a name, and the
-- name a product again. `none`: an id that no product has, an entry that was not sent,
-- or a name that is too long.
unfoldable pub init_stocks : ℕ → List ℕ → List ℤ → List Product → Option (List Stock × List Product)
init_stocks zero ids quantities products = some ([], products)
init_stocks (suc n) [] quantities products = none
init_stocks (suc n) (id ∷ ids) [] products = none
init_stocks (suc n) (id ∷ ids) (q ∷ quantities) products = do
  whole ← get_product_name id products
  name ← copied whole
  let (made, products') = init_stock name q products
  stock ← made
  (stocks, products'') ← init_stocks n ids quantities products'
  some (stock ∷ stocks, products'')

-- `initPlane`, with the map whose products it may extend. The checks of the header and of the amounts
-- only write to the log. The distance is not set, and not read.
unfoldable pub init_plane : StockMessagePart → PlaneMessageHeader → Map → Option (Plane × Map)
unfolding init_stocks
init_plane stocks header map = do
  (ss, products) ← init_stocks stocks.count stocks.stock_id stocks.quantities map.product
  some (
    record { id = header.id; stocks = ss; city_id = header.city_id; distance = 0 },
    record map { product = products },
  )
