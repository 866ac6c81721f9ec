-- ===== src/OrderBook/Controller.antt =====
-- `create` and `createMarket` of src/order-book/order-book.controller.ts. The guard in front of them
-- has verified the request's token; `user` is what it left in `req.user`.
use exchange_backend.Base.{ℕ, String, true, false, Option, none, some, []}
use exchange_backend.Base.Action.{Action, pure, throw, database_error, catch, ◌>>=◌}
use exchange_backend.OrderBook.Entity.{OrderBook}
use exchange_backend.OrderBook.World.{Env, World}
use exchange_backend.OrderBook.Service.{Reply, handle_order, get_all_orders, fetch_all_coin_orders}
use exchange_backend.OrderBook.Broadcast.{fill_order_book_and_return}

-- The bodies of the requests, by their interfaces in src/dto. They are not validated: a `uid` may be
-- missing.
pub record LimitOrderDto : Type 0 where
  pub uid : Option ℕ
  pub side : String
  pub symbol : String
  pub price : ℕ
  pub size : ℕ

pub record MarketOrderDto : Type 0 where
  pub uid : Option ℕ
  pub side : String
  pub symbol : String
  pub size : ℕ

-- The fields that the object literal leaves out.
abbrev new_order : ℕ → String → String → String → Option ℕ → ℕ → OrderBook
new_order uid type side symbol price size = record {
  id = 0;
  uid = uid;
  side = side;
  symbol = symbol;
  fills = none;
  type = type;
  price = price;
  size = size;
  org_size = 0;
  volume = 0;
  is_filled = false;
  created_at = 0;
  settled_at = none;
  parent_id = none;
}

abbrev please_login : Reply
please_login = record { success = false; message = "Please login "; content = [] }

-- `{ uid: req.user.userId, type: 'Limit', ...createOrderDto }`: a `uid` in the body comes last.
abbrev named_user : ℕ → Option ℕ → ℕ
named_user user none = user
named_user user (some uid) = uid

abbrev pub limit_order_of : ℕ → LimitOrderDto → OrderBook
limit_order_of user dto =
    new_order (named_user user dto.uid) "Limit" dto.side dto.symbol (some dto.price) dto.size

abbrev pub market_order_of : ℕ → MarketOrderDto → OrderBook
market_order_of uid dto = new_order uid "Market" dto.side dto.symbol none dto.size

module _ (E : Env) where
  unfoldable pub create : LimitOrderDto → Option ℕ → Action (World E) Reply
  create dto none = pure please_login
  create dto (some user) = handle_order E (limit_order_of user dto)

  -- A market order without a `uid` is rejected when it is saved, which comes first.
  abbrev handle_market_order : MarketOrderDto → Option ℕ → Action (World E) Reply
  handle_market_order dto none = throw database_error
  handle_market_order dto (some uid) = handle_order E (market_order_of uid dto)

  unfoldable pub create_market : MarketOrderDto → Option ℕ → Action (World E) Reply
  create_market dto none = pure please_login
  create_market dto (some user) = handle_market_order dto dto.uid

  -- `fetchOrders`: what it fills in is only logged.
  unfoldable pub fetch_orders : Action (World E) (Unit {0})
  fetch_orders = catch (fill_order_book_and_return E "BTC/ETH" >>= λ val. pure tt) (λ er. pure tt)

  unfoldable pub user_orders : ℕ → String → ℕ → Action (World E) Reply
  user_orders user_id symbol limit = do
    list ← get_all_orders E user_id symbol limit
    pure (record { success = true; message = "fetched"; content = list })

  unfoldable pub fetch_coin_orders : ℕ → Action (World E) Reply
  fetch_coin_orders user_id = do
    list ← fetch_all_coin_orders E user_id
    pure (record { success = true; message = ""; content = list })
