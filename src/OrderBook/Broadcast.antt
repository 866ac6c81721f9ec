-- ===== src/OrderBook/Broadcast.antt =====
-- `fillOrderBook` and `emitSocketData` of src/order-book/order-book.service.ts.
use exchange_backend.Base.{ℕ, String, ◌<>◌, ◌&&◌, List, [], ◌∷◌, ◌++◌, ltb, if◌then◌else◌, number}
use exchange_backend.Base.Action.{Action, throw, gets, modify, type_error, ◌>>=◌, ◌>>◌}
use exchange_backend.Base.Int.{ℤ, sub_ℕ, is_positive}
use exchange_backend.Repository.Order.{asc, desc}
use exchange_backend.OrderBook.Entity.{Trade}
use exchange_backend.OrderBook.World.{Env, World, OrderBooks, DayStats}
use exchange_backend.OrderBook.Database.{
  find_orders, get_all_trades, last_24_hours_data, price_before_24_hour,
}

module _ (E : Env) where
  unfoldable pub fill_order_book : String → Action (World E) (Unit {0})
  fill_order_book symbol = do
    buy_orders ← find_orders E "BUY" symbol 100 asc
    sell_orders ← find_orders E "SELL" symbol 100 desc
    modify (λ w. record w {
      order_books = record { buy_orders = buy_orders; sell_orders = sell_orders };
    })

  unfoldable pub fill_order_book_and_return : String → Action (World E) OrderBooks
  fill_order_book_and_return symbol = do fill_order_book symbol; gets (λ w. w.order_books)

  abbrev percentage : ℤ → ℕ → String
  percentage change before =
      if is_positive change && ltb 0 before
      then "+" <> (E.format_ratio change before <> "%")
      else E.format_ratio change before <> "%"

  -- `trades[0].price` throws if the symbol has no trade.
  unfoldable pub send : List Trade → DayStats → ℕ → Action (World E) (Unit {0})
  send [] stats before = throw type_error
  send (last ∷ trades) stats before =
      let change : ℤ = sub_ℕ (number last.price) before in
      modify (λ w. record w {
        emitted =
            w.emitted
            ++ (record {
              buy_orders = w.order_books.buy_orders;
              sell_orders = w.order_books.sell_orders;
              trades = last ∷ trades;
              last_trade = last;
              last_24_hour_data = stats;
              precentage_change = percentage change before;
              change_in_price = change;
            }
                ∷ []);
      })

  unfoldable pub emit_socket_data : String → Action (World E) (Unit {0})
  unfolding send
  emit_socket_data symbol = do
    fill_order_book symbol
    trades ← get_all_trades E symbol 20
    last_24_hour_data ← last_24_hours_data E
    price_before ← price_before_24_hour E
    send trades last_24_hour_data price_before
