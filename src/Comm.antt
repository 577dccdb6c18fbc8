-- ===== src/Comm.antt =====
-- The messages of communication/types.h, communication/msgqueue.h, marshall/plane.h and
-- marshall/map.h, and the bounds of global.h.
use tp1_so_2c.Base.{ℕ, List}
use tp1_so_2c.Base.Int.{ℤ}

abbrev pub max_destinations : ℕ
max_destinations = 10

abbrev pub max_stocks : ℕ
max_stocks = 50

-- `enum MessageType`, `MessageTypeLast` included.
pub data MessageType : Type 0 where
  none continue destinations step stock airline_done unload_stock : MessageType
  check_destinations end map_status airline_status end_output last : MessageType

-- `struct AirlineStatus`
pub record AirlineStatus : Type 0 where
  pub id : ℕ
  pub planes_flying : ℕ
  pub total_planes : ℕ

-- `union MessagePayload`. The arrays hold what the sender wrote in them. `unset` is a payload that
-- the sender has left alone. The percentage of `mapStatus` is a float and is left out.
pub data Payload : Type 0 where
  unset : Payload
  destinations : (count : ℕ) → (destinations distances : List ℕ) → Payload
  stock : (count : ℕ) → (delta : List ℤ) → Payload
  map_status : (cities_satisfied total_cities : ℕ) → Payload
  airline_status : AirlineStatus → Payload

-- `struct Message`
pub record Message : Type 0 where
  pub type : MessageType
  pub payload : Payload

-- `struct Message` whose type alone is set.
abbrev pub signal : MessageType → Message
signal t = record { type = t; payload = unset }

-- `struct PlaneMessageHeader`. `city_id` is the result of `getCityId`, which may be -1.
pub record PlaneMessageHeader : Type 0 where
  pub type : MessageType
  pub airline : ℕ
  pub id : ℕ
  pub city_id : ℤ

-- `struct StockMessagePart`
pub record StockMessagePart : Type 0 where
  pub count : ℕ
  pub stock_id : List ℕ
  pub quantities : List ℤ

-- `struct CheckDestinationsMessage`
pub record CheckDestinationsMessage : Type 0 where
  pub header : PlaneMessageHeader
  pub max_destinations : ℕ
  pub stocks : StockMessagePart

-- `struct StockStateMessage`
pub record StockStateMessage : Type 0 where
  pub header : PlaneMessageHeader
  pub stocks : StockMessagePart

-- `struct DestinationsMessage`
pub record DestinationsMessage : Type 0 where
  pub type : MessageType
  pub plane_id : ℕ
  pub count : ℕ
  pub destinations : List ℕ
  pub distance : List ℕ
