-- ===== src/OrderBook/Service.antt =====
-- The rest of src/order-book/order-book.service.ts: saving, dispatch and `handleOrder`.
use exchange_backend.Base.{
  ℕ, ◌*◌, String, Bool, true, false, none, List, [], ◌∷◌, if◌then◌else◌, str_eq, number,
}
use exchange_backend.Base.Action.{Action, pure, ◌>>=◌, ◌>>◌}
use exchange_backend.OrderBook.Entity.{OrderBook}
use exchange_backend.OrderBook.World.{Env, World}
use exchange_backend.OrderBook.Database.{
  save_order_book, get_user_orders_no_side, fetch_all_orders_by_user_id,
}
use exchange_backend.OrderBook.Broadcast.{fill_order_book, emit_socket_data}
use exchange_backend.OrderBook.Matching.{
  Outcome, match_buy_order, match_sell_order, match_market_buy_order, match_market_sell_order,
}

-- `{ success, message, data }`
pub record Reply : Type 0 where
  pub success : Bool
  pub message : String
  pub content : List OrderBook

module _ (E : Env) where
  -- `saveOrder`: the order as `save` leaves it in memory, with its key.
  unfoldable pub save_order : OrderBook → Action (World E) OrderBook
  save_order order = do
    saved ← save_order_book E (record order { volume = number order.price * order.size })
    fill_order_book E order.symbol
    emit_socket_data E order.symbol
    pure saved

  unfoldable pub save_market_order : OrderBook → Action (World E) OrderBook
  save_market_order order = do
    saved ← save_order_book E (record order { price = none })
    fill_order_book E order.symbol
    pure saved

  unfoldable pub match_limit_order : OrderBook → Action (World E) Outcome
  match_limit_order order =
      if str_eq order.side "BUY" then match_buy_order E order else match_sell_order E order

  unfoldable pub match_market_order : OrderBook → Action (World E) Outcome
  match_market_order order =
      if str_eq order.side "BUY"
      then match_market_buy_order E order
      else match_market_sell_order E order

  -- The end of both branches of `handleOrder`: the open orders of user 1, or the failure.
  unfoldable pub answer : String → String → String → Outcome → Action (World E) Reply
  answer placed failed symbol g =
      if g.success
      then (do
        order_list ← get_user_orders_no_side E 1 symbol 20
        pure (record { success = true; message = placed; content = order_list }))
      else pure (record { success = false; message = failed; content = [] })

  unfoldable pub handle_order : OrderBook → Action (World E) Reply
  handle_order order =
      let incoming = record order { org_size = order.size } in
      if str_eq order.type "Market"
      then (do
        saved ← save_market_order incoming
        g ← match_market_order saved
        answer "Order Completed Sussesssfully" "Failed to place Ordery" order.symbol g)
      else (do
        saved ← save_order incoming
        g ← match_limit_order saved
        answer "Order placed Successfully" "Failed to place Order" order.symbol g)

  -- Requests one after the other: what one throws goes to its client and stops no other.
  unfoldable pub serve : List OrderBook → World E → World E
  serve [] w = w
  serve (order ∷ orders) w = serve orders (handle_order order w).1

  unfoldable pub get_all_orders : ℕ → String → ℕ → Action (World E) (List OrderBook)
  get_all_orders user_id symbol limit = get_user_orders_no_side E user_id symbol limit

  unfoldable pub fetch_all_coin_orders : ℕ → Action (World E) (List OrderBook)
  fetch_all_coin_orders userid = fetch_all_orders_by_user_id E userid
