-- ===== src/OrderBook/Matching.antt =====
-- The four matching routines of src/order-book/order-book.service.ts: `matchBuyOrder`,
-- `matchSellOrder`, `matchMarketBuyOrder` and `matchMarketSellOrder`. Their loops are one loop over
-- the parts in which they differ: a routine's `Terms`.
use exchange_backend.Base.{
  ℕ, ◌-◌, String, Bool, true, false, Option, none, some, List, [], ◌∷◌, ◌++◌, reverse, ltb, leb,
  ◌==◌, if◌then◌else◌, number,
}
use exchange_backend.Base.Action.{Action, pure, gets, catch, ◌>>=◌, ◌>>◌}
use exchange_backend.OrderBook.Entity.{Fill, OrderBook, Trade, OrderUpdate}
use exchange_backend.OrderBook.World.{Env, World, new_date}
use exchange_backend.OrderBook.Database.{save_trade_row, update_order_book}
use exchange_backend.OrderBook.Broadcast.{emit_socket_data}

-- `{ success, message }`
pub record Outcome : Type 0 where
  pub success : Bool
  pub message : String

abbrev pub matched : Outcome
matched = record { success = true; message = "Ok" }

abbrev pub not_placed : Outcome
not_placed = record { success = false; message = "Failed to place order" }

abbrev pub empty_book : Outcome
empty_book = record { success = false; message = "No ordes in order book" }

-- How a routine treats the incoming order against a resting one: when it stops, the price that it
-- notes in each order's fills, and the trade, less its size and date. "Entire" is the branch that
-- fills the whole incoming order, "partial" the one that goes on.
pub record Terms : Type 0 where
  pub stops : OrderBook → OrderBook → Bool
  pub entire_order_price : OrderBook → OrderBook → Option ℕ
  pub entire_resting_price : OrderBook → OrderBook → Option ℕ
  pub partial_order_price : OrderBook → OrderBook → Option ℕ
  pub partial_resting_price : OrderBook → OrderBook → Option ℕ
  pub entire_trade : OrderBook → OrderBook → ℕ → ℕ → Trade
  pub partial_trade : OrderBook → OrderBook → ℕ → ℕ → Trade

-- `fills ? JSON.parse(fills) : []`, then `push`.
abbrev pub push_fill : Option (List Fill) → Fill → List Fill
push_fill none f = f ∷ []
push_fill (some fs) f = fs ++ (f ∷ [])

abbrev pub filled_update : ℕ → List Fill → OrderUpdate
filled_update date fills = record {
  is_filled = some true;
  size = some 0;
  settled_at = some date;
  fills = some fills;
}

abbrev pub reduced_update : ℕ → List Fill → OrderUpdate
reduced_update size fills = record {
  is_filled = none;
  size = some size;
  settled_at = none;
  fills = some fills;
}

abbrev trade_of : ℕ → ℕ → Option ℕ → String → String → ℕ → ℕ → ℕ → Trade
trade_of buyer_id seller_id price type symbol is_buyer size created_at = record {
  id = 0;
  buyer_id = buyer_id;
  seller_id = seller_id;
  price = price;
  size = size;
  volume = 0;
  type = type;
  symbol = symbol;
  is_buyer = some is_buyer;
  created_at = created_at;
}

abbrev never : OrderBook → OrderBook → Bool
never order resting = false

abbrev pub buy_terms : Terms
buy_terms = record {
  stops = λ order sell. ltb (number order.price) (number sell.price);
  entire_order_price = λ order sell. sell.price;
  entire_resting_price = λ order sell. order.price;
  partial_order_price = λ order sell. sell.price;
  partial_resting_price = λ order sell. order.price;
  entire_trade = λ order sell. trade_of order.uid sell.uid sell.price "Limit" order.symbol 1;
  partial_trade = λ order sell. trade_of order.uid sell.uid sell.price "Limit" order.symbol 0;
}

abbrev pub sell_terms : Terms
sell_terms = record {
  stops = λ order buy. ltb (number buy.price) (number order.price);
  entire_order_price = λ order buy. order.price;
  entire_resting_price = λ order buy. buy.price;
  partial_order_price = λ order buy. buy.price;
  partial_resting_price = λ order buy. order.price;
  entire_trade = λ order buy. trade_of buy.uid order.uid buy.price "Limit" order.symbol 0;
  partial_trade = λ order buy. trade_of buy.uid order.uid buy.price "Limit" order.symbol 1;
}

abbrev pub market_buy_terms : Terms
market_buy_terms = record {
  stops = never;
  entire_order_price = λ order sell. sell.price;
  entire_resting_price = λ order sell. sell.price;
  partial_order_price = λ order sell. sell.price;
  partial_resting_price = λ order sell. sell.price;
  entire_trade = λ order sell. trade_of order.uid sell.uid sell.price "Market" order.symbol 1;
  partial_trade = λ order sell. trade_of order.uid sell.uid sell.price "Market" order.symbol 0;
}

abbrev pub market_sell_terms : Terms
market_sell_terms = record {
  stops = never;
  entire_order_price = λ order buy. buy.price;
  entire_resting_price = λ order buy. buy.price;
  partial_order_price = λ order buy. buy.price;
  partial_resting_price = λ order buy. buy.price;
  entire_trade = λ order buy. trade_of buy.uid order.uid buy.price "Market" order.symbol 0;
  partial_trade = λ order buy. trade_of buy.uid order.uid buy.price "Market" order.symbol 0;
}

-- The incoming order after a partial fill.
abbrev pub remainder : Terms → OrderBook → OrderBook → OrderBook
remainder T order resting = record order {
  size = order.size - resting.size;
  fills = some (
      push_fill order.fills
        (record { size = resting.size; price = T.partial_order_price order resting }));
}

module _ (E : Env) where
  unfoldable pub update_order : String → ℕ → OrderUpdate → Action (World E) (Unit {0})
  update_order symbol rowid update = do update_order_book E rowid update; emit_socket_data E symbol

  unfoldable pub save_trade : Trade → Action (World E) (Unit {0})
  save_trade trade = do save_trade_row E trade; emit_socket_data E trade.symbol

  -- The last step of the entire branch: the resting order is filled too, or keeps the rest.
  unfoldable pub settle_resting : String → OrderBook → ℕ → List Fill → Action (World E) (Unit {0})
  settle_resting symbol resting left fills =
      if left == 0
      then (do date ← new_date E; update_order symbol resting.id (filled_update date fills))
      else update_order symbol resting.id (reduced_update left fills)

  -- `if (Number(resting.size) >= Number(order.size))`: the branch that ends the loop.
  unfoldable pub fill_entire : Terms → OrderBook → OrderBook → Action (World E) (Unit {0})
  fill_entire T order resting = do
    date ← new_date E
    update_order order.symbol order.id (
        filled_update date (
          push_fill order.fills
            (record { size = order.size; price = T.entire_order_price order resting })))
    traded ← new_date E
    save_trade (T.entire_trade order resting order.size traded)
    settle_resting order.symbol resting (resting.size - order.size) (
        push_fill resting.fills
          (record { size = order.size; price = T.entire_resting_price order resting }))

  -- The branch that uses up the resting order and continues.
  unfoldable pub fill_partial : Terms → OrderBook → OrderBook → Action (World E) OrderBook
  fill_partial T order resting = do
    date ← new_date E
    update_order order.symbol resting.id (
        filled_update date (
          push_fill resting.fills
            (record { size = resting.size; price = T.partial_resting_price order resting })))
    traded ← new_date E
    save_trade (T.partial_trade order resting resting.size traded)
    update_order order.symbol order.id (
        reduced_update (order.size - resting.size) (
          push_fill order.fills
            (record { size = resting.size; price = T.partial_order_price order resting })))
    pure (remainder T order resting)

  -- `for (let i = n - 1; i >= 0; i--)`, on the orders from the last to the first.
  unfoldable pub match_loop : Terms → OrderBook → List OrderBook → Action (World E) (Unit {0})
  match_loop T order [] = pure tt
  match_loop T order (resting ∷ more) =
      if T.stops order resting
      then pure tt
      else if leb order.size resting.size
      then fill_entire T order resting
      else (do order' ← fill_partial T order resting; match_loop T order' more)

  abbrev pub caught : Action (World E) (Unit {0}) → Action (World E) Outcome
  caught loop = catch (loop >> pure matched) (λ e. pure not_placed)

  -- `if (n && sell_orders[n - 1].price <= order.price)`
  abbrev pub guarded :
      (OrderBook → Bool) → Terms → OrderBook → List OrderBook → Action (World E) (Unit {0})
  guarded crosses T order [] = pure tt
  guarded crosses T order (best ∷ more) =
      if crosses best then match_loop T order (best ∷ more) else pure tt

  unfoldable pub match_buy_order : OrderBook → Action (World E) Outcome
  match_buy_order order = do
    sell_orders ← gets (λ w. w.order_books.sell_orders)
    caught (
        guarded (λ best. leb (number best.price) (number order.price)) buy_terms order
          (reverse sell_orders))

  unfoldable pub match_sell_order : OrderBook → Action (World E) Outcome
  match_sell_order order = do
    buy_orders ← gets (λ w. w.order_books.buy_orders)
    caught (
        guarded (λ best. leb (number order.price) (number best.price)) sell_terms order
          (reverse buy_orders))

  abbrev pub match_market : Terms → OrderBook → List OrderBook → Action (World E) Outcome
  match_market T order [] = pure empty_book
  match_market T order (best ∷ more) = caught (match_loop T order (best ∷ more))

  unfoldable pub match_market_buy_order : OrderBook → Action (World E) Outcome
  match_market_buy_order order = do
    sell_orders ← gets (λ w. w.order_books.sell_orders)
    match_market market_buy_terms order (reverse sell_orders)

  unfoldable pub match_market_sell_order : OrderBook → Action (World E) Outcome
  match_market_sell_order order = do
    buy_orders ← gets (λ w. w.order_books.buy_orders)
    match_market market_sell_terms order (reverse buy_orders)
