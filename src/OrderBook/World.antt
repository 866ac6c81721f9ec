-- ===== src/OrderBook/World.antt =====
-- What the service reads and changes, and the parameters that stand for what is not in this code.
use exchange_backend.Base.{ℕ, ◌+◌, String, Option, List}
use exchange_backend.Base.Action.{Action, ok, attempt}
use exchange_backend.Base.Int.{ℤ}
use exchange_backend.Repository.{Repository, IsLawful}
use exchange_backend.OrderBook.Entity.{
  OrderBook, Trade, order_key, order_keyed, trade_key, trade_keyed,
}

-- `clock n` is what the n-th `new Date()` gives; `format_ratio c b` is the text that
-- `Intl.NumberFormat('en-IN')` gives for (c * 100) / b.
pub record Env : Type 1 where
  pub orders : Repository OrderBook
  pub trades : Repository Trade
  pub clock : ℕ → ℕ
  pub format_ratio : ℤ → ℕ → String

pub record IsLawfulEnv (E : Env) : Type 0 where
  pub orders_lawful : IsLawful order_key order_keyed E.orders
  pub trades_lawful : IsLawful trade_key trade_keyed E.trades

-- The service's field `order_books`.
pub record OrderBooks : Type 0 where
  pub buy_orders : List OrderBook
  pub sell_orders : List OrderBook

-- The row that `last_24_hours_data` selects; a sum over no row is NULL.
pub record DayStats : Type 0 where
  pub coin1_volume : Option ℕ
  pub coin2_volume : Option ℕ
  pub low : Option ℕ
  pub high : Option ℕ

-- What `emitSocketData` sends to every client.
pub record Message : Type 0 where
  pub buy_orders : List OrderBook
  pub sell_orders : List OrderBook
  pub trades : List Trade
  pub last_trade : Trade
  pub last_24_hour_data : DayStats
  pub precentage_change : String
  pub change_in_price : ℤ

pub record World (E : Env) : Type 0 where
  pub orders : E.orders.State
  pub trades : E.trades.State
  pub ticks : ℕ
  pub order_books : OrderBooks
  pub emitted : List Message

module _ (E : Env) where
  abbrev pub order_rows : World E → List OrderBook
  order_rows w = E.orders.rows w.orders

  abbrev pub trade_rows : World E → List Trade
  trade_rows w = E.trades.rows w.trades

  abbrev pub on_orders :
      {A : Type 0} → (E.orders.State → Option A × E.orders.State) → Action (World E) A
  on_orders call w = let (r, s) = call w.orders in (attempt r, record w { orders = s })

  abbrev pub on_trades :
      {A : Type 0} → (E.trades.State → Option A × E.trades.State) → Action (World E) A
  on_trades call w = let (r, s) = call w.trades in (attempt r, record w { trades = s })

  abbrev pub new_date : Action (World E) ℕ
  new_date w = (ok (E.clock w.ticks), record w { ticks = w.ticks + 1 })
