-- ===== src/OrderBook/Routines.antt =====
-- The four matching routines settle the executions against the other side of the book, from its
-- last order to its first, or report a failure; none of them throws.
use exchange_backend.Base.{◌≡◌, ◌≢◌, refl, ◌⊎◌, inl, inr, Bool, true, false, List, [], ◌∷◌, reverse}
use exchange_backend.Base.Lists.{All, All-reverse}
use exchange_backend.Base.Action.{
  Action, Result, ok, err, Ends, EndsAs, proceed, catch, handled, pure, ◌>>=◌,
}
use exchange_backend.OrderBook.Entity.{OrderBook}
use exchange_backend.OrderBook.World.{Env, World, IsLawfulEnv}
use exchange_backend.OrderBook.Matching.{
  Outcome, matched, not_placed, empty_book, Terms, market_buy_terms, market_sell_terms, caught,
  match_market, match_market_buy_order, match_market_sell_order,
}
use exchange_backend.OrderBook.Executions.{executions}
use exchange_backend.OrderBook.Frames.{Anything}
use exchange_backend.OrderBook.Settlement.{
  IsFair, Settled, match_loop-Settled, market_buy_terms-IsFair, market_sell_terms-IsFair,
}

-- The routine reports success and has settled the executions, or it reports a failure.
abbrev pub Placed : (E : Env) → (World E → Type 0) → Result Outcome × World E → Type 0
Placed E Done p = ((p.0 ≡ ok matched) × Done p.1) ⊎ (p.0 ≡ ok not_placed)

module _ {E : Env} (Done : World E → Type 0) where
  Placed-proceed :
      (p : Result (Unit {0}) × World E)
      → EndsAs Anything (λ _. Done) p
      → Placed E Done (handled (λ e. pure not_placed) (proceed (λ _. pure matched) p))
  Placed-proceed (ok a, t) h = inl (refl, h)
  Placed-proceed (err e, t) h = inr refl

  caught-Placed :
      (m : Action (World E) (Unit {0})) (w : World E)
      → Ends Anything (λ _. Done) (m w)
      → Placed E Done (caught E m w)
  unfolding catch ◌>>=◌
  caught-Placed m w h = Placed-proceed (m w) h.ends

-- A market routine reports an empty book, and otherwise does as the others do.
abbrev pub PlacedAtMarket :
    (E : Env) → List OrderBook → (World E → Type 0) → World E → Result Outcome × World E → Type 0
PlacedAtMarket E [] Done w p = p ≡ (ok empty_book, w)
PlacedAtMarket E (x ∷ xs) Done w p = Placed E Done p

module _ (E : Env) (L : IsLawfulEnv E) (T : Terms) (buys : Bool) (F : IsFair T buys) where
  match_market-Placed :
      (order : OrderBook) (xs : List OrderBook) (w : World E)
      → All (λ x. order.id ≢ x.id) xs
      → PlacedAtMarket E xs
          (Settled E buys order (executions (T.stops order) order.size xs) w)
          w
          (match_market E T order xs w)
  match_market-Placed order [] w others = refl
  match_market-Placed order (x ∷ xs) w others =
      caught-Placed _ _ w (match_loop-Settled E L T buys F order (x ∷ xs) w others)

module _ (E : Env) (L : IsLawfulEnv E) (order : OrderBook) (w : World E) where
  -- Over lawful repositories whose calls may be rejected at any point, and for a book of sell orders that
  -- does not hold the order itself, the routine never throws: on an empty book it says so and changes
  -- nothing; else it reports success and has settled exactly the executions of the order, or it reports
  -- that the order was not placed.
  pub match_market_buy_order-Placed :
      All (λ x. order.id ≢ x.id) w.order_books.sell_orders
      → let book = reverse w.order_books.sell_orders in
        PlacedAtMarket E book
          (Settled E true order (executions (λ _. false) order.size book) w)
          w
          (match_market_buy_order E order w)
  unfolding match_market_buy_order ◌>>=◌
  match_market_buy_order-Placed others =
      match_market-Placed E L market_buy_terms true market_buy_terms-IsFair order _ w
        (All-reverse _ w.order_books.sell_orders others)

  -- Over lawful repositories whose calls may be rejected at any point, and for a book of buy orders that
  -- does not hold the order itself, the routine never throws: on an empty book it says so and changes
  -- nothing; else it reports success and has settled exactly the executions of the order, or it reports
  -- that the order was not placed.
  pub match_market_sell_order-Placed :
      All (λ x. order.id ≢ x.id) w.order_books.buy_orders
      → let book = reverse w.order_books.buy_orders in
        PlacedAtMarket E book
          (Settled E false order (executions (λ _. false) order.size book) w)
          w
          (match_market_sell_order E order w)
  unfolding match_market_sell_order ◌>>=◌
  match_market_sell_order-Placed others =
      match_market-Placed E L market_sell_terms false market_sell_terms-IsFair order _ w
        (All-reverse _ w.order_books.buy_orders others)
