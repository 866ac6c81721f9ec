-- ===== src/OrderBook/Entity.antt =====
-- The entities src/database/order_book/order_book.entity.ts and src/database/trade/trade.entity.ts.
-- Prices and sizes are counted in units of 10^-8, the scale of their decimal columns, so a volume
-- is counted in units of 10^-16. Dates are milliseconds. A column of JSON text is its value.
use exchange_backend.Base.{ℕ, String, Bool, Option, none, some, List}

-- An element of the column `fills`.
pub record Fill : Type 0 where
  pub size : ℕ
  pub price : Option ℕ

pub record OrderBook : Type 0 where
  pub id : ℕ
  pub uid : ℕ
  pub side : String
  pub symbol : String
  pub fills : Option (List Fill)
  pub type : String
  pub price : Option ℕ
  pub size : ℕ
  pub org_size : ℕ
  pub volume : ℕ
  pub is_filled : Bool
  pub created_at : ℕ
  pub settled_at : Option ℕ
  pub parent_id : Option ℕ

pub record Trade : Type 0 where
  pub id : ℕ
  pub buyer_id : ℕ
  pub seller_id : ℕ
  pub price : Option ℕ
  pub size : ℕ
  pub volume : ℕ
  pub type : String
  pub symbol : String
  pub is_buyer : Option ℕ
  pub created_at : ℕ

-- The columns that an update of an order names; `none` leaves the column alone.
pub record OrderUpdate : Type 0 where
  pub is_filled : Option Bool
  pub size : Option ℕ
  pub settled_at : Option ℕ
  pub fills : Option (List Fill)

abbrev given : {A : Type 0} → Option A → A → A
given none old = old
given (some new) old = new

abbrev given_column : {A : Type 0} → Option A → Option A → Option A
given_column none old = old
given_column (some new) old = some new

abbrev pub write_order : OrderUpdate → OrderBook → OrderBook
write_order u r = record r {
  is_filled = given u.is_filled r.is_filled;
  size = given u.size r.size;
  settled_at = given_column u.settled_at r.settled_at;
  fills = given_column u.fills r.fills;
}

-- The generated columns. The code gives a trade its time of creation, and never an order.
abbrev pub order_key : OrderBook → ℕ
order_key r = r.id

abbrev pub order_keyed : ℕ → ℕ → OrderBook → OrderBook
order_keyed n time r = record r { id = n; created_at = time }

abbrev pub trade_key : Trade → ℕ
trade_key t = t.id

abbrev pub trade_keyed : ℕ → ℕ → Trade → Trade
trade_keyed n time t = record t { id = n }
