-- ===== src/OrderBook/Examples.antt =====
-- The theorems about the order book at concrete orders, over repositories in memory.
use exchange_backend.Base.{
  ℕ, ◌≡◌, refl, true, false, String, Option, none, some, List, [], ◌∷◌, min, reverse, arith,
}
use exchange_backend.Base.Lists.{sum_by}
use exchange_backend.Base.Action.{◌>>=◌, ok}
use exchange_backend.Repository.Memory.{memory_repository, memory_repository-IsLawful, always}
use exchange_backend.OrderBook.Entity.{
  OrderBook, Trade, order_key, order_keyed, trade_key, trade_keyed,
}
use exchange_backend.OrderBook.World.{Env, World, OrderBooks, IsLawfulEnv, order_rows}
use exchange_backend.OrderBook.Broadcast.{fill_order_book}
use exchange_backend.OrderBook.Database.{find_orders}
use exchange_backend.OrderBook.Matching.{matched, match_market_buy_order, match_market_sell_order}
use exchange_backend.OrderBook.Service.{Reply, handle_order, serve}
use exchange_backend.OrderBook.Executions.{executions}
use exchange_backend.OrderBook.Settlement.{Settled}
use exchange_backend.OrderBook.Routines.{
  PlacedAtMarket, match_market_buy_order-Placed, match_market_sell_order-Placed,
}
use exchange_backend.OrderBook.Success.{IsReliableEnv, IsTraded}
use exchange_backend.OrderBook.Totality.{
  match_market_buy_order-total, match_market_sell_order-total,
}
use exchange_backend.OrderBook.Trader.{
  Filled, match_market_buy_order-fills, match_market_sell_order-fills,
}
use exchange_backend.OrderBook.Untraded.{IsUntraded}
use exchange_backend.OrderBook.Untraded.Orders.{handle_order-fails, IsUntraded-forever}
use exchange_backend.OrderBook.BookOrder.{Kept, NoLower, NoHigher, fill_order_book-Kept}

abbrev env : Env
env = record {
  orders = memory_repository always order_key order_keyed;
  trades = memory_repository always trade_key trade_keyed;
  clock = λ n. n;
  format_ratio = λ change before. "0";
}

lawful : IsLawfulEnv env
lawful = record {
  orders_lawful = memory_repository-IsLawful always order_key order_keyed (λ n time r. refl);
  trades_lawful = memory_repository-IsLawful always trade_key trade_keyed (λ n time r. refl);
}

reliable : IsReliableEnv env
reliable = record {
  orders_reliable = record {
    finds = λ o s. (_, refl);
    saves = λ r s. (_, refl);
    updates = λ c f s. refl;
  };
  trades_reliable = record {
    finds = λ o s. (_, refl);
    saves = λ r s. (_, refl);
    updates = λ c f s. refl;
  };
}

abbrev order_of : ℕ → String → Option ℕ → ℕ → OrderBook
order_of id side price size = record {
  id = id;
  uid = 10;
  side = side;
  symbol = "BTC";
  fills = none;
  type = "Limit";
  price = price;
  size = size;
  org_size = size;
  volume = 0;
  is_filled = false;
  created_at = id;
  settled_at = none;
  parent_id = none;
}

abbrev sells : List OrderBook
sells = order_of 1 "SELL" (some 8) 4 ∷ order_of 2 "SELL" (some 5) 3 ∷ []

abbrev buys : List OrderBook
buys = order_of 3 "BUY" (some 2) 4 ∷ order_of 4 "BUY" (some 4) 3 ∷ []

abbrev last_trade : Trade
last_trade = record {
  id = 1;
  buyer_id = 1;
  seller_id = 2;
  price = some 5;
  size = 1;
  volume = 5;
  type = "Limit";
  symbol = "BTC";
  is_buyer = some 1;
  created_at = 0;
}

abbrev world_of : List OrderBook → List Trade → World env
world_of incoming trades = record {
  orders = record { stored = incoming; outcomes = [] };
  trades = record { stored = trades; outcomes = [] };
  ticks = 100;
  order_books = record { buy_orders = buys; sell_orders = sells };
  emitted = [];
}

abbrev buyer : OrderBook
buyer = order_of 9 "BUY" (some 6) 5

abbrev seller : OrderBook
seller = order_of 9 "SELL" (some 3) 5

abbrev with_buyer : World env
with_buyer = world_of (buyer ∷ order_of 2 "SELL" (some 5) 3 ∷ []) (last_trade ∷ [])

abbrev with_seller : World env
with_seller = world_of (seller ∷ order_of 4 "BUY" (some 4) 3 ∷ []) (last_trade ∷ [])

buyer-IsTraded : IsTraded env "BTC" with_buyer
buyer-IsTraded u = cc

seller-IsTraded : IsTraded env "BTC" with_seller
seller-IsTraded u = cc

match_market_buy_order-fills_example :
    let (r, t) = match_market_buy_order env buyer with_buyer in
    (r ≡ ok matched)
    × Filled env buyer
        (min 5 (sum_by (λ x. x.size) (reverse sells)))
        (λ x. (x.buyer_id ≡ 10) × (x.symbol ≡ "BTC"))
        with_buyer
        t
match_market_buy_order-fills_example =
    match_market_buy_order-fills env lawful reliable buyer with_buyer buyer-IsTraded (omega arith)
      (λ e. cc) (omega arith)

match_market_sell_order-fills_example :
    let (r, t) = match_market_sell_order env seller with_seller in
    (r ≡ ok matched)
    × Filled env seller
        (min 5 (sum_by (λ x. x.size) (reverse buys)))
        (λ x. (x.seller_id ≡ 10) × (x.symbol ≡ "BTC"))
        with_seller
        t
match_market_sell_order-fills_example =
    match_market_sell_order-fills env lawful reliable seller with_seller seller-IsTraded
      (omega arith) (λ e. cc) (omega arith)

match_market_buy_order-total_example :
    ((match_market_buy_order env buyer with_buyer).0 ≡ ok matched)
    × Settled env true buyer
        (executions (λ _. false) 5 (reverse sells))
        with_buyer
        (match_market_buy_order env buyer with_buyer).1
match_market_buy_order-total_example =
    match_market_buy_order-total env lawful reliable buyer with_buyer buyer-IsTraded (λ e. cc)
      (omega arith)

match_market_sell_order-total_example :
    ((match_market_sell_order env seller with_seller).0 ≡ ok matched)
    × Settled env false seller
        (executions (λ _. false) 5 (reverse buys))
        with_seller
        (match_market_sell_order env seller with_seller).1
match_market_sell_order-total_example =
    match_market_sell_order-total env lawful reliable seller with_seller seller-IsTraded (λ e. cc)
      (omega arith)

match_market_buy_order-Placed_example :
    PlacedAtMarket env
      (reverse sells)
      (Settled env true buyer (executions (λ _. false) 5 (reverse sells)) with_buyer)
      with_buyer
      (match_market_buy_order env buyer with_buyer)
match_market_buy_order-Placed_example =
    match_market_buy_order-Placed env lawful buyer with_buyer (omega arith)

match_market_sell_order-Placed_example :
    PlacedAtMarket env
      (reverse buys)
      (Settled env false seller (executions (λ _. false) 5 (reverse buys)) with_seller)
      with_seller
      (match_market_sell_order env seller with_seller)
match_market_sell_order-Placed_example =
    match_market_sell_order-Placed env lawful seller with_seller (omega arith)

-- A market without a trade.
abbrev fresh : World env
fresh = world_of sells []

abbrev first_order : OrderBook
first_order = order_of 0 "BUY" (some 6) 5

handle_order-fails_example :
    ((reply : Reply) → (handle_order env first_order fresh).0 ≡ ok reply → reply.success ≡ false)
    × IsUntraded env "BTC" (handle_order env first_order fresh).1
handle_order-fails_example = handle_order-fails env lawful "BTC" first_order fresh refl refl tt

IsUntraded-forever_example :
    IsUntraded env "BTC" (serve env (first_order ∷ order_of 0 "SELL" (some 1) 2 ∷ []) fresh)
IsUntraded-forever_example =
    IsUntraded-forever env lawful "BTC" (first_order ∷ order_of 0 "SELL" (some 1) 2 ∷ []) fresh
      (refl, (refl, tt)) tt

fill_order_book-Kept_example :
    let books : OrderBooks = (fill_order_book env "BTC" (world_of buys [])).1.order_books in
    Kept "BUY" "BTC" 100 NoLower (order_rows env (world_of buys [])) books.buy_orders
    × Kept "SELL" "BTC" 100 NoHigher (order_rows env (world_of buys [])) books.sell_orders
unfolding fill_order_book find_orders ◌>>=◌
fill_order_book-Kept_example = fill_order_book-Kept env lawful "BTC" (world_of buys []) refl
