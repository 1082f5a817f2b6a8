-- ===== src/Events.antt =====
-- src/events/order.rs and src/events/event.rs: orders and the events of the simulator. The number
-- type is a parameter. `Display` is not modelled.
pub mod Queue
use Prim.Native.String.{String}
use strata_exec.Prelude.{ℕ, Option, none}

pub data Side : Type 0 where
  buy sell : Side

pub record Order (F : Type 0) : Type 0 where
  pub id : ℕ
  pub strategy_name : String
  pub side : Side
  pub quantity : F
  pub limit_price : Option F

abbrev pub market_sell : {F : Type 0} → ℕ → String → F → Order F
market_sell id name quantity = record {
  id = id;
  strategy_name = name;
  side = Side.sell;
  quantity = quantity;
  limit_price = none;
}

abbrev pub market_buy : {F : Type 0} → ℕ → String → F → Order F
market_buy id name quantity = record {
  id = id;
  strategy_name = name;
  side = Side.buy;
  quantity = quantity;
  limit_price = none;
}

pub data SimEvent (F : Type 0) : Type 0 where
  price_update : F → F → SimEvent F
  market_trade : F → F → SimEvent F
  submit_order : Order F → SimEvent F
  cancel_order : ℕ → SimEvent F
  -- id, quantity, price, impact
  order_filled : ℕ → F → F → F → SimEvent F
  -- id, filled, remaining, price
  partial_fill : ℕ → F → F → F → SimEvent F
  time_tick : ℕ → SimEvent F
  path_start : ℕ → SimEvent F
  path_end : ℕ → SimEvent F
  progress : ℕ → ℕ → SimEvent F
  simulation_end : SimEvent F

-- src/execution/fills.rs.
pub record Fill (F : Type 0) : Type 0 where
  pub order_id : ℕ
  pub strategy : String
  pub quantity : F
  pub price : F
  pub impact : F

abbrev pub into_event : {F : Type 0} → Fill F → SimEvent F
into_event x = SimEvent.order_filled x.order_id x.quantity x.price x.impact
