-- ===== src/OrderBook/Totality.antt =====
-- The routines run to their end, and settle the executions, where no call is rejected and the symbol
-- has a trade.
use exchange_backend.Base.{◌≡◌, ◌≢◌, refl, inl, inr, Bool, true, false, List, [], ◌∷◌, reverse}
use exchange_backend.Base.Lists.{All}
use exchange_backend.Base.Action.{
  Action, Result, ok, err, Ends, EndsAs, catch, handled, proceed, pure, ◌>>=◌,
}
use exchange_backend.OrderBook.Entity.{OrderBook}
use exchange_backend.OrderBook.World.{Env, World, IsLawfulEnv}
use exchange_backend.OrderBook.Matching.{
  Outcome, matched, not_placed, Terms, market_buy_terms, market_sell_terms, caught, match_loop,
  match_market, match_market_buy_order, match_market_sell_order,
}
use exchange_backend.OrderBook.Executions.{Execution, executions}
use exchange_backend.OrderBook.Settlement.{
  IsFair, Settled, market_buy_terms-IsFair, market_sell_terms-IsFair,
}
use exchange_backend.OrderBook.Routines.{
  Placed, PlacedAtMarket, match_market_buy_order-Placed, match_market_sell_order-Placed,
}
use exchange_backend.OrderBook.Success.{IsReliableEnv, IsTraded, match_loop-Works}

module _ {E : Env} (P : World E → Type 0) where
  caught-matched_as :
      (p : Result (Unit {0}) × World E)
      → EndsAs (λ _. ⊥) (λ _. P) p
      → (handled (λ e. pure not_placed) (proceed (λ _. pure matched) p)).0 ≡ ok matched
  caught-matched_as (ok a, t) h = refl
  caught-matched_as (err e, t) h = absurd h

  caught-matched :
      (m : Action (World E) (Unit {0})) (w : World E)
      → Ends (λ _. ⊥) (λ _. P) (m w)
      → (caught E m w).0 ≡ ok matched
  unfolding catch ◌>>=◌
  caught-matched m w h = caught-matched_as (m w) h.ends

-- A routine that reports success has done what it reports.
module _ (E : Env) (buys : Bool) (order : OrderBook) (w : World E)
    (p : Result Outcome × World E) where
  Placed-done :
      {es : List Execution}
      → p.0 ≡ ok matched
      → Placed E (Settled E buys order es w) p
      → Settled E buys order es w p.1
  Placed-done e (inl h) = h.1
  Placed-done e (inr failed) = cc

  PlacedAtMarket-done :
      {es : List Execution} (xs : List OrderBook)
      → p.0 ≡ ok matched
      → xs ≢ []
      → PlacedAtMarket E xs (Settled E buys order es w) w p
      → Settled E buys order es w p.1
  PlacedAtMarket-done [] e full h = absurd (full refl)
  PlacedAtMarket-done (x ∷ xs) e full h = Placed-done e h

module _ (E : Env) (L : IsLawfulEnv E) (C : IsReliableEnv E) (T : Terms) (buys : Bool)
    (F : IsFair T buys) where
  match_market-matched :
      (order : OrderBook) (xs : List OrderBook) (w : World E)
      → xs ≢ []
      → IsTraded E order.symbol w
      → (match_market E T order xs w).0 ≡ ok matched
  match_market-matched order [] w full h = absurd (full refl)
  match_market-matched order (x ∷ xs) w full h =
      caught-matched (IsTraded E order.symbol) (match_loop E T order (x ∷ xs)) w
        (match_loop-Works E L C order.symbol T buys F order (x ∷ xs) w refl h)

module _ (E : Env) (L : IsLawfulEnv E) (C : IsReliableEnv E) (order : OrderBook) (w : World E)
    (traded : IsTraded E order.symbol w) where
  match_market_buy_order-matched :
      reverse w.order_books.sell_orders ≢ [] → (match_market_buy_order E order w).0 ≡ ok matched
  unfolding match_market_buy_order ◌>>=◌
  match_market_buy_order-matched full =
      match_market-matched E L C market_buy_terms true market_buy_terms-IsFair order _ w full traded

  -- With lawful repositories that reject no call, a symbol that has a trade and a book of sell orders that is
  -- not empty and does not hold the order itself, the routine reports success, and the trades and rows
  -- that it writes are those of the executions of the order against the sell orders, from the last of
  -- the book to the first, at any price.
  pub match_market_buy_order-total :
      reverse w.order_books.sell_orders ≢ []
      → All (λ x. order.id ≢ x.id) w.order_books.sell_orders
      → ((match_market_buy_order E order w).0 ≡ ok matched)
        × Settled E true order
            (executions (λ _. false) order.size (reverse w.order_books.sell_orders))
            w
            (match_market_buy_order E order w).1
  match_market_buy_order-total full others = (
    match_market_buy_order-matched full,
    PlacedAtMarket-done E true order w (match_market_buy_order E order w)
        (reverse w.order_books.sell_orders) (match_market_buy_order-matched full) full
        (match_market_buy_order-Placed E L order w others),
  )

  match_market_sell_order-matched :
      reverse w.order_books.buy_orders ≢ [] → (match_market_sell_order E order w).0 ≡ ok matched
  unfolding match_market_sell_order ◌>>=◌
  match_market_sell_order-matched full =
      match_market-matched E L C market_sell_terms false market_sell_terms-IsFair order _ w full
        traded

  -- With lawful repositories that reject no call, a symbol that has a trade and a book of buy orders that is
  -- not empty and does not hold the order itself, the routine reports success, and the trades and rows
  -- that it writes are those of the executions of the order against the buy orders, from the last of
  -- the book to the first, at any price.
  pub match_market_sell_order-total :
      reverse w.order_books.buy_orders ≢ []
      → All (λ x. order.id ≢ x.id) w.order_books.buy_orders
      → ((match_market_sell_order E order w).0 ≡ ok matched)
        × Settled E false order
            (executions (λ _. false) order.size (reverse w.order_books.buy_orders))
            w
            (match_market_sell_order E order w).1
  match_market_sell_order-total full others = (
    match_market_sell_order-matched full,
    PlacedAtMarket-done E false order w (match_market_sell_order E order w)
        (reverse w.order_books.buy_orders) (match_market_sell_order-matched full) full
        (match_market_sell_order-Placed E L order w others),
  )
