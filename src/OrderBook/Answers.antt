-- ===== src/OrderBook/Answers.antt =====
-- The socket gateway answers for every symbol, and changes nothing.
use mathlib.Core.List.{Permᴰ, head?}
use exchange_backend.Base.{ℕ, String, ◌≡◌, ◌≤◌, ◌⊎◌, Bool, str_eq, leb, ltb, List, [], ◌++◌}
use exchange_backend.Base.Lists.{All, Ordered, filter, length}
use exchange_backend.Base.Action.{Action, ok}
use exchange_backend.OrderBook.Entity.{OrderBook, Trade}
use exchange_backend.OrderBook.World.{Env, World, DayStats, order_rows, trade_rows}
use exchange_backend.OrderBook.Database.{hours_since, day_stats, price_or_zero}
use exchange_backend.OrderBook.Frames.{Same}
use exchange_backend.OrderBook.Gateway.{MarketData, change_since, percentage_text}
use exchange_backend.OrderBook.BookOrder.{Kept, NoLower, NoHigher}

-- From a state with the rows of `w`, the action gives a result with the property, and leaves the rows.
record Answers {A : Type 0} (E : Env) (w : World E) (P : A → Type 0) (m : Action (World E) A)
    : Type 0 where
  answers : (v : World E) → Same E w v → (a : A) × ((m v).0 ≡ ok a) × P a × Same E w (m v).1

-- The first trades of the condition from the newest on, all of them up to the limit.
pub record Newest (condition : Trade → Bool) (limit : ℕ) (rows found : List Trade) : Type 0 where
  pub dropped : List Trade
  pub all_of : Permᴰ (filter condition rows) (found ++ dropped)
  pub newest_first : Ordered (λ x y. y.created_at ≤ x.created_at) found
  pub dropped_no_newer : All (λ x. All (λ y. y.created_at ≤ x.created_at) dropped) found
  pub full : (dropped ≡ []) ⊎ (length found ≡ limit)

-- The statistics of the trades of the last 24 hours, at a reading of the clock.
abbrev pub IsDayOf : (E : Env) → List Trade → DayStats → Type 0
IsDayOf E rows stats =
    (n : ℕ) × (found : List Trade) × Permᴰ
      (filter (λ t. leb (hours_since (E.clock n) t.created_at) 24) rows) found
    × (stats ≡ day_stats found)

-- The price of the newest trade that is older than 24 hours, at a reading of the clock, or 0.
abbrev pub IsPriceBefore : (E : Env) → List Trade → ℕ → Type 0
IsPriceBefore E rows price =
    (n : ℕ) × (found : List Trade) × Newest (λ t. ltb 24 (hours_since (E.clock n) t.created_at)) 1
      rows found
    × (price ≡ price_or_zero E (head? found))

-- What the answer for a symbol says of the rows.
pub record IsDataOf (E : Env) (symbol : String) (w : World E) (r : MarketData) : Type 0 where
  pub buys : Kept "BUY" symbol 100 NoLower (order_rows E w) r.buy_orders
  pub sells : Kept "SELL" symbol 100 NoHigher (order_rows E w) r.sell_orders
  pub newest : Newest (λ t. str_eq t.symbol symbol) 20 (trade_rows E w) r.trades
  pub last : r.last_trade ≡ head? r.trades
  pub day : IsDayOf E (trade_rows E w) r.last_24_hour_data
  pub change :
      (before : ℕ) × IsPriceBefore E (trade_rows E w) before
      × (r.change_in_price ≡ change_since r.trades before)
      × (r.precentage_change ≡ percentage_text E r.change_in_price before)
