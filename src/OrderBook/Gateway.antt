-- ===== src/OrderBook/Gateway.antt =====
-- `listenForOrder` of src/socket/socket.gateway.ts, which answers the message `get_data`.
use exchange_backend.Base.{
  ℕ, String, ◌<>◌, Option, none, some, List, [], ◌∷◌, ltb, if◌then◌else◌, number,
}
use exchange_backend.Base.Action.{Action, pure, ◌>>=◌}
use exchange_backend.Base.Int.{ℤ, pos, sub_ℕ, is_positive}
use exchange_backend.Repository.Order.{asc, desc}
use exchange_backend.OrderBook.Entity.{OrderBook, Trade}
use exchange_backend.OrderBook.World.{Env, World, DayStats}
use exchange_backend.OrderBook.Database.{
  find_orders, get_all_trades, last_24_hours_data, price_before_24_hour,
}

-- The object that is sent to every client; `last_trade` is undefined without a trade.
pub record MarketData : Type 0 where
  pub buy_orders : List OrderBook
  pub sell_orders : List OrderBook
  pub trades : List Trade
  pub last_trade : Option Trade
  pub last_24_hour_data : DayStats
  pub precentage_change : String
  pub change_in_price : ℤ

abbrev pub first_trade : List Trade → Option Trade
first_trade [] = none
first_trade (t ∷ ts) = some t

abbrev pub change_since : List Trade → ℕ → ℤ
change_since [] before = pos 0
change_since (t ∷ ts) before = sub_ℕ (number t.price) before

module _ (E : Env) where
  abbrev pub percentage_text : ℤ → ℕ → String
  percentage_text change before =
      if ltb 0 before
      then (if is_positive change
          then "+" <> (E.format_ratio change before <> "%")
          else E.format_ratio change before <> "%")
      else "0"

  -- What it sends is its result.
  unfoldable pub listen_for_order : String → Action (World E) MarketData
  listen_for_order symbol = do
    buy_orders ← find_orders E "BUY" symbol 100 asc
    sell_orders ← find_orders E "SELL" symbol 100 desc
    trades ← get_all_trades E symbol 20
    last_24_hour_data ← last_24_hours_data E
    price_before ← price_before_24_hour E
    pure (record {
      buy_orders = buy_orders;
      sell_orders = sell_orders;
      trades = trades;
      last_trade = first_trade trades;
      last_24_hour_data = last_24_hour_data;
      precentage_change = percentage_text (change_since trades price_before) price_before;
      change_in_price = change_since trades price_before;
    })
