-- ===== src/OrderBook/Database.antt =====
-- The methods of src/database/database.service.ts on orders and trades.
use mathlib.Core.List.{head?}
use exchange_backend.Base.{
  ℕ, suc, ◌+◌, ◌-◌, ◌*◌, ◌/◌, String, Bool, false, not, ◌&&◌, ◌||◌, Option, none, some, List, [],
  ◌∷◌, min, max, ltb, leb, ◌==◌, if◌then◌else◌, str_eq, number,
}
use exchange_backend.Base.Action.{Action, pure, ◌>>=◌}
use exchange_backend.Base.Lists.{sum_by}
use exchange_backend.Repository.{FindOptions}
use exchange_backend.Repository.Order.{Direction, asc, desc, OrderBy}
use exchange_backend.OrderBook.Entity.{OrderBook, Trade, OrderUpdate, write_order}
use exchange_backend.OrderBook.World.{Env, World, DayStats, on_orders, on_trades, new_date}

-- MySQL sorts NULL below every number.
abbrev pub price_column : OrderBook → ℕ
price_column r = elim r.price [ none ↦ 0 | some p ↦ suc p ]

abbrev pub newest_first : OrderBy OrderBook
newest_first = record { direction = desc; column = λ r. r.created_at } ∷ []

-- By price in the given direction, then the oldest first.
abbrev pub by_price : Direction → OrderBy OrderBook
by_price d =
    record { direction = d; column = price_column }
    ∷ record { direction = asc; column = λ r. r.created_at }
    ∷ []

-- The conditions under `where`.
abbrev pub is_open : String → String → OrderBook → Bool
is_open side symbol r = str_eq r.side side && (str_eq r.symbol symbol && not r.is_filled)

-- The options of `findOrders`.
abbrev pub open_orders : String → String → ℕ → Direction → FindOptions OrderBook
open_orders side symbol limit order_by = record {
  condition = is_open side symbol;
  order = by_price order_by;
  limit = some limit;
}

abbrev pub is_open_of_user : ℕ → String → OrderBook → Bool
is_open_of_user user_id symbol r = str_eq r.symbol symbol && (not r.is_filled && r.uid == user_id)

abbrev pub newest_trade_first : OrderBy Trade
newest_trade_first = record { direction = desc; column = λ t. t.created_at } ∷ []

-- The options of `getAllTrades`.
abbrev pub trades_of : String → ℕ → FindOptions Trade
trades_of symbol limit = record {
  condition = λ t. str_eq t.symbol symbol;
  order = newest_trade_first;
  limit = some limit;
}

-- HOUR(TIMEDIFF(now(), created_at)), by milliseconds: HOUR ignores the sign.
abbrev pub hours_since : ℕ → ℕ → ℕ
hours_since now t = (now - t + (t - now)) / 3_600_000

-- MIN and MAX over a column.
abbrev extreme : (ℕ → ℕ → ℕ) → List Trade → Option ℕ
extreme better [] = none
extreme better (t ∷ ts) =
    some (elim (extreme better ts) [ none ↦ number t.price | some p ↦ better (number t.price) p ])

abbrev sum_or_null : (Trade → ℕ) → List Trade → Option ℕ
sum_or_null column [] = none
sum_or_null column (t ∷ ts) = some (sum_by column (t ∷ ts))

unfoldable pub day_stats : List Trade → DayStats
day_stats ts = record {
  coin1_volume = sum_or_null (λ t. t.size) ts;
  coin2_volume = sum_or_null (λ t. t.volume) ts;
  low = extreme min ts;
  high = extreme max ts;
}

module _ (E : Env) where
  unfoldable pub find_orders : String → String → ℕ → Direction → Action (World E) (List OrderBook)
  find_orders side symbol limit order_by =
      on_orders E (E.orders.find (open_orders side symbol limit order_by))

  -- `getAllOrders`: the price's direction follows the side, and the newest order stands first.
  unfoldable pub get_all_orders : ℕ → String → String → ℕ → Action (World E) (List OrderBook)
  get_all_orders user_id symbol side limit = on_orders E (
      E.orders.find (record {
        condition = λ r. is_open side symbol r && r.uid == user_id;
        order =
            record { direction = if str_eq side "BUY" then asc else desc; column = price_column }
            ∷ newest_first;
        limit = some limit;
      }))

  unfoldable pub get_order_by_id : ℕ → Action (World E) (Option OrderBook)
  get_order_by_id id = do
    found ←
        on_orders E
          (E.orders.find (record { condition = λ r. r.id == id; order = []; limit = some 1 }))
    pure (head? found)

  unfoldable pub fetch_all_orders_by_user_id : ℕ → Action (World E) (List OrderBook)
  fetch_all_orders_by_user_id userid =
      on_orders E
        (E.orders.find (record { condition = λ r. r.uid == userid; order = []; limit = none }))

  unfoldable pub get_user_orders : ℕ → String → String → ℕ → Action (World E) (List OrderBook)
  get_user_orders user_id symbol side limit = on_orders E (
      E.orders.find (record {
        condition = λ r. is_open side symbol r && r.uid == user_id;
        order = newest_first;
        limit = some limit;
      }))

  unfoldable pub get_user_orders_no_side : ℕ → String → ℕ → Action (World E) (List OrderBook)
  get_user_orders_no_side user_id symbol limit = on_orders E (
      E.orders.find (record {
        condition = is_open_of_user user_id symbol;
        order = newest_first;
        limit = some limit;
      }))

  unfoldable pub get_all_trades : String → ℕ → Action (World E) (List Trade)
  get_all_trades symbol limit = on_trades E (E.trades.find (trades_of symbol limit))

  -- `limit` is not used.
  unfoldable pub get_user_trades : ℕ → String → ℕ → Action (World E) (List Trade)
  get_user_trades user_id symbol limit = on_trades E (
      E.trades.find (record {
        condition =
            λ t. str_eq t.symbol symbol && (t.buyer_id == user_id || t.seller_id == user_id);
        order = [];
        limit = none;
      }))

  unfoldable pub save_trade_row : Trade → Action (World E) Trade
  save_trade_row trade =
      on_trades E (E.trades.save (record trade { volume = number trade.price * trade.size }))

  unfoldable pub save_order_book : OrderBook → Action (World E) OrderBook
  save_order_book order_book = on_orders E (E.orders.save (record order_book { is_filled = false }))

  unfoldable pub update_order_book : ℕ → OrderUpdate → Action (World E) (Unit {0})
  update_order_book id update = on_orders E (E.orders.update (λ r. r.id == id) (write_order update))

  unfoldable pub last_24_hours_data : Action (World E) DayStats
  unfolding day_stats
  last_24_hours_data = do
    now ← new_date E
    found ← on_trades E (
        E.trades.find (record {
          condition = λ t. leb (hours_since now t.created_at) 24;
          order = [];
          limit = none;
        }))
    pure (day_stats found)

  abbrev pub price_or_zero : Option Trade → ℕ
  price_or_zero none = 0
  price_or_zero (some t) = number t.price

  unfoldable pub price_before_24_hour : Action (World E) ℕ
  price_before_24_hour = do
    now ← new_date E
    found ← on_trades E (
        E.trades.find (record {
          condition = λ t. ltb 24 (hours_since now t.created_at);
          order = newest_trade_first;
          limit = some 1;
        }))
    pure (price_or_zero (head? found))
