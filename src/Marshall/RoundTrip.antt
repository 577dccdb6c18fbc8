-- ===== src/Marshall/RoundTrip.antt =====
-- marshall/plane.c and `initPlane` of app/map.c: what a plane sends of its stocks arrives.
use tp1_so_2c.Base.Int.{ℤ}
use tp1_so_2c.Base.{
  ℕ, ap, sym, ◌∙◌, some_inj, Option, none, ◌≤◌, ◌≡◌, refl, List, [], ◌∷◌, map, some, arith,
  get_elem?, length, ◌>>=◌,
}
use tp1_so_2c.Comm.{max_stocks, MessageType, StockMessagePart, StockStateMessage}
use tp1_so_2c.Models.{Product, Stock, Map, Plane}
use tp1_so_2c.Models.Catalogue.{IsCatalogue, get_product_name-known, init_stock-known, copied-known}
use tp1_so_2c.Simulation.Receive.{init_stocks, init_plane}
use tp1_so_2c.Marshall.{
  marshall_stocks, marshall_change_stock, marshall_check_destinations, prepare_header,
}

-- Every stock is of a product that stands at its id among the products.
abbrev pub AreKnown : List Product → List Stock → Type 0
AreKnown ps [] = Unit
AreKnown ps (s ∷ ss) = (get_elem? ps s.product.id ≡ some s.product) × AreKnown ps ss

init_stocks-marshalled :
    {ps : List Product} (ss : List Stock)
    → IsCatalogue ps
    → AreKnown ps ss
    → init_stocks (length ss) (map (λ s. s.product.id) ss) (map (λ s. s.amount) ss) ps
      ≡ some (ss, ps)
unfolding init_stocks
init_stocks-marshalled [] c k = refl
init_stocks-marshalled {ps} (s ∷ ss) c k = rw (
  get_product_name-known ps s.product.id s.product k.0,
  copied-known s.product.id s.product c k.0,
  init_stock-known s.product.id s.product s.amount c k.0,
  init_stocks-marshalled ss c k.1,
)

marshall_stocks-fits :
    (ss : List Stock)
    → length ss ≤ max_stocks
    → marshall_stocks ss
      ≡ some (record {
        count = length ss;
        stock_id = map (λ s. s.product.id) ss;
        quantities = map (λ s. s.amount) ss;
      })
unfolding marshall_stocks
marshall_stocks-fits ss h = ground arith

-- At most 50 stocks fit in a message.
pub marshall_change_stock-fits :
    (airline id : ℕ) (city_id : ℤ) (ss : List Stock)
    → length ss ≤ max_stocks
    → (msg : StockStateMessage) × (marshall_change_stock airline id city_id ss ≡ some msg)
unfolding marshall_change_stock
marshall_change_stock-fits airline id city_id ss h = (
  record {
    header = prepare_header airline id city_id MessageType.unload_stock;
    stocks = record {
      count = length ss;
      stock_id = map (λ s. s.product.id) ss;
      quantities = map (λ s. s.amount) ss;
    };
  },
  rw (marshall_stocks-fits ss h, marshall_change_stock),
)

-- What the map makes of the request of a plane to unload is the plane, with its distance reset: for a
-- plane with at most 50 stocks, all of products that stand at their ids in a map whose products have
-- different names of less than 30 bytes. The map gets no new product.
init_plane-marshall_change_stock :
    (airline : ℕ) (plane : Plane) (m : Map)
    → IsCatalogue m.product
    → AreKnown m.product plane.stocks
    → length plane.stocks ≤ max_stocks
    → (marshall_change_stock airline plane.id plane.city_id plane.stocks >>= λ msg.
        init_plane msg.stocks msg.header m)
      ≡ some (record plane { distance = 0 }, m)
unfolding init_plane marshall_change_stock prepare_header
init_plane-marshall_change_stock airline plane m c k h =
    rw (marshall_stocks-fits plane.stocks h, marshall_change_stock)
      (rw (init_stocks-marshalled plane.stocks c k))

-- The same of the request of a plane for destinations.
init_plane-marshall_check_destinations :
    (airline len : ℕ) (plane : Plane) (m : Map)
    → IsCatalogue m.product
    → AreKnown m.product plane.stocks
    → length plane.stocks ≤ max_stocks
    → (marshall_check_destinations airline plane.id plane.city_id plane.stocks len >>= λ msg.
        init_plane msg.stocks msg.header m)
      ≡ some (record plane { distance = 0 }, m)
unfolding init_plane marshall_check_destinations prepare_header
init_plane-marshall_check_destinations airline len plane m c k h =
    rw (marshall_stocks-fits plane.stocks h, marshall_check_destinations)
      (rw (init_stocks-marshalled plane.stocks c k))

-- What the map makes of either request of a plane, to unload or for destinations, is the plane with its
-- distance reset, and the map gets no new product: for at most 50 stocks of products that stand at their
-- ids in a map whose products have different names of less than 30 bytes.
pub init_plane-marshalled :
    (airline len : ℕ) (plane : Plane) (m : Map)
    → IsCatalogue m.product
    → AreKnown m.product plane.stocks
    → length plane.stocks ≤ max_stocks
    → ((marshall_change_stock airline plane.id plane.city_id plane.stocks >>= λ msg.
          init_plane msg.stocks msg.header m)
        ≡ some (record plane { distance = 0 }, m))
      × ((marshall_check_destinations airline plane.id plane.city_id plane.stocks len >>= λ msg.
            init_plane msg.stocks msg.header m)
          ≡ some (record plane { distance = 0 }, m))
init_plane-marshalled airline len plane m c k h = (
  init_plane-marshall_change_stock airline plane m c k h,
  init_plane-marshall_check_destinations airline len plane m c k h,
)

-- The amounts of at most 50 stocks stand in the message as they are.
pub marshall_change_stock-quantities :
    (airline id : ℕ) (city_id : ℤ) (ss : List Stock) (msg : StockStateMessage)
    → length ss ≤ max_stocks
    → marshall_change_stock airline id city_id ss ≡ some msg
    → (msg.stocks.count ≡ length ss) × (msg.stocks.quantities ≡ map (λ s. s.amount) ss)
unfolding marshall_change_stock prepare_header
marshall_change_stock-quantities airline id city_id ss msg h sent =
    let made = some_inj (
      sym (
        ap
          (λ (o : Option StockMessagePart). elim o [
            | none ↦ none
            | some part ↦ some (record {
              header = prepare_header airline id city_id MessageType.unload_stock;
              stocks = part;
            })
          ])
          (marshall_stocks-fits ss h))
      ∙ sent) in
    (
      sym (ap (λ (r : StockStateMessage). r.stocks.count) made),
      sym (ap (λ (r : StockStateMessage). r.stocks.quantities) made),
    )
