-- ===== src/Marshall.antt =====
-- marshall/plane.c and marshall/map.c: the messages that planes, airlines and the map exchange.
pub mod RoundTrip
use tp1_so_2c.Base.{ℕ, List, map, Option, none, some, length, leb, take, if◌then◌else◌}
use tp1_so_2c.Base.Int.{ℤ}
use tp1_so_2c.Comm.{
  MessageType, AirlineStatus, Message, Payload, signal, max_stocks, PlaneMessageHeader,
  StockMessagePart, CheckDestinationsMessage, StockStateMessage, DestinationsMessage,
}
use tp1_so_2c.Models.{Stock}

-- `prepare_header`
unfoldable pub prepare_header : ℕ → ℕ → ℤ → MessageType → PlaneMessageHeader
prepare_header airline plane city_id type = record {
  type = type;
  airline = airline;
  id = plane;
  city_id = city_id;
}

-- The loop that fills the arrays of a `struct StockMessagePart`. `none`: there are more stocks than the
-- arrays have places, and the loop writes past their end.
unfoldable pub marshall_stocks : List Stock → Option StockMessagePart
marshall_stocks stocks =
    if leb (length stocks) max_stocks
    then some (record {
      count = length stocks;
      stock_id = map (λ s. s.product.id) stocks;
      quantities = map (λ s. s.amount) stocks;
    })
    else none

-- `marshall_check_destinations`
pub marshall_check_destinations : ℕ → ℕ → ℤ → List Stock → ℕ → Option CheckDestinationsMessage
unfolding marshall_stocks prepare_header
marshall_check_destinations airline id city_id stocks len = elim (marshall_stocks stocks) [
  | none ↦ none
  | some part ↦ some (record {
    header = prepare_header airline id city_id MessageType.check_destinations;
    max_destinations = len;
    stocks = part;
  })
]

-- `marshall_change_stock`
unfoldable pub marshall_change_stock : ℕ → ℕ → ℤ → List Stock → Option StockStateMessage
unfolding marshall_stocks prepare_header
marshall_change_stock airline id city_id stocks = elim (marshall_stocks stocks) [
  | none ↦ none
  | some part ↦ some (record {
    header = prepare_header airline id city_id MessageType.unload_stock;
    stocks = part;
  })
]

-- `marshall_give_destinations`: the first `count` entries of the two arrays are copied.
unfoldable pub marshall_give_destinations : ℕ → ℕ → List ℕ → List ℕ → DestinationsMessage
marshall_give_destinations plane_id count cities_ids distances = record {
  type = MessageType.destinations;
  plane_id = plane_id;
  count = count;
  destinations = take count cities_ids;
  distance = take count distances;
}

-- `marshall_send_map_status`, less the percentage
unfoldable pub marshall_send_map_status : ℕ → ℕ → Message
marshall_send_map_status cities_satisfied total_cities = record {
  type = MessageType.map_status;
  payload = Payload.map_status cities_satisfied total_cities;
}

-- `marshall_send_airline_status`
unfoldable pub marshall_send_airline_status : ℕ → ℕ → ℕ → AirlineStatus
marshall_send_airline_status planes_flying total_planes id = record {
  id = id;
  planes_flying = planes_flying;
  total_planes = total_planes;
}

-- `marshall_end_output`
pub marshall_end_output : Message
marshall_end_output = signal MessageType.end_output
