-- ===== src/OrderBook/Trader.antt =====
-- The routines as a trader sees them: the total traded, the counterparty's price against the limit,
-- and what is left of the order.
use exchange_backend.Base.{
  ℕ, ◌-◌, ◌≤◌, ◌≡◌, ◌≢◌, refl, sym, ap, subst, Bool, true, false, List, [], ◌∷◌, min, leb, number,
  reverse, Bool-cases, inl, inr,
}
use exchange_backend.Base.Lists.{All, All-reverse, sum_by}
use exchange_backend.Base.Action.{ok}
use exchange_backend.OrderBook.Entity.{OrderBook, Trade}
use exchange_backend.OrderBook.World.{Env, World, IsLawfulEnv}
use exchange_backend.OrderBook.Matching.{matched, match_market_buy_order, match_market_sell_order}
use exchange_backend.OrderBook.Executions.{executions, eligible, Deal, sum-executions}
use exchange_backend.OrderBook.Steps.{standings}
use exchange_backend.OrderBook.Settlement.{Settled}
use exchange_backend.OrderBook.Guarantees.{Traded, Settled-Traded, HasSize, settle-HasSize}
use exchange_backend.OrderBook.Success.{IsReliableEnv, IsTraded}
use exchange_backend.OrderBook.Totality.{
  match_market_buy_order-total, match_market_sell_order-total,
}

executions-All_of :
    (P : OrderBook → Type 0) (stops : OrderBook → Bool) (size : ℕ) (xs : List OrderBook)
    → All P xs
    → All (λ e. P e.resting) (executions stops size xs)
unfolding executions
executions-All_of P stops size [] h = tt
executions-All_of P stops size (x ∷ xs) h = elim (Bool-cases (stops x)) [
  | inl stopped ↦ rw stopped tt
  | inr goes ↦ elim (Bool-cases (leb size x.size)) [
    | inl entire ↦ rw (goes, entire) (h.0, tt)
    | inr part ↦ rw (goes, part) (h.0, executions-All_of P stops (size - x.size) xs h.1)
  ]
]

eligible-all : (xs : List OrderBook) → eligible (λ _. false) xs ≡ xs
eligible-all [] = refl
eligible-all (x ∷ xs) = ap (λ (l : List OrderBook). x ∷ l) (eligible-all xs)

-- What a filled order of a symbol gets: trades of this total, each with the property, and the rest
-- of its size stays open.
abbrev pub Filled : (E : Env) → OrderBook → ℕ → (Trade → Type 0) → World E → World E → Type 0
Filled E order total P w t =
    Traded E total P w t × HasSize order.id (order.size - total) (standings E t)

abbrev pub Bought : OrderBook → Deal → Type 0
Bought order d =
    (d.buyer_id ≡ order.uid) × (number d.price ≤ number order.price) × (d.symbol ≡ order.symbol)

abbrev pub Sold : OrderBook → Deal → Type 0
Sold order d =
    (d.seller_id ≡ order.uid) × (number order.price ≤ number d.price) × (d.symbol ≡ order.symbol)

module _ (E : Env) (buys : Bool) (order : OrderBook) (stops : OrderBook → Bool)
    (book : List OrderBook) where
  Settled-HasSize :
      (w t : World E)
      → All (λ x. order.id ≢ x.id) book
      → HasSize order.id order.size (standings E w)
      → Settled E buys order (executions stops order.size book) w t
      → HasSize order.id
          (order.size - min order.size (sum_by (λ x. x.size) (eligible stops book)))
          (standings E t)
  Settled-HasSize w t others own s =
      subst (λ n. HasSize order.id (order.size - n) (standings E t))
        (sum-executions stops order.size book)
        (subst
          (HasSize order.id
            (order.size - sum_by (λ e. e.quantity) (executions stops order.size book)))
          (sym s.left)
          (settle-HasSize order.id order.size (executions stops order.size book) (standings E w)
            (executions-All_of (λ x. order.id ≢ x.id) stops order.size book others) own))

module _ (E : Env) (L : IsLawfulEnv E) (C : IsReliableEnv E) (order : OrderBook) (w : World E)
    (traded : IsTraded E order.symbol w) (own : HasSize order.id order.size (standings E w)) where
  -- With lawful repositories that reject no call, a symbol that has a trade, a book of sell orders that is
  -- not empty and does not hold the order itself, and rows that give it its size, the routine reports
  -- success. It records new trades of the order's symbol with its user as buyer; their total is the
  -- order's size or, if that is less, that of all the sell orders; and the order's rows keep its size
  -- less that total.
  pub match_market_buy_order-fills :
      reverse w.order_books.sell_orders ≢ []
      → All (λ x. order.id ≢ x.id) w.order_books.sell_orders
      → let (r, t) = match_market_buy_order E order w in
        (r ≡ ok matched)
        × Filled E order
            (min order.size (sum_by (λ x. x.size) (reverse w.order_books.sell_orders)))
            (λ x. (x.buyer_id ≡ order.uid) × (x.symbol ≡ order.symbol))
            w
            t
  match_market_buy_order-fills full others =
      let (done, s) = match_market_buy_order-total E L C order w traded full others in
      let book = reverse w.order_books.sell_orders in
      subst
        (λ xs.
          ((match_market_buy_order E order w).0 ≡ ok matched)
          × Filled E order (min order.size (sum_by (λ x. x.size) xs))
              (λ x. (x.buyer_id ≡ order.uid) × (x.symbol ≡ order.symbol)) w
              (match_market_buy_order E order w).1)
        (eligible-all book)
        (
          done,
          (
            Settled-Traded true order _ book
                (λ d. (d.buyer_id ≡ order.uid) × (d.symbol ≡ order.symbol)) w _
                (λ e h. (refl, refl)) s,
            Settled-HasSize E true order _ book w _ (All-reverse _ w.order_books.sell_orders others)
                own s,
          ),
        )

  -- With lawful repositories that reject no call, a symbol that has a trade, a book of buy orders that is
  -- not empty and does not hold the order itself, and rows that give it its size, the routine reports
  -- success. It records new trades of the order's symbol with its user as seller; their total is the
  -- order's size or, if that is less, that of all the buy orders; and the order's rows keep its size
  -- less that total.
  pub match_market_sell_order-fills :
      reverse w.order_books.buy_orders ≢ []
      → All (λ x. order.id ≢ x.id) w.order_books.buy_orders
      → let (r, t) = match_market_sell_order E order w in
        (r ≡ ok matched)
        × Filled E order
            (min order.size (sum_by (λ x. x.size) (reverse w.order_books.buy_orders)))
            (λ x. (x.seller_id ≡ order.uid) × (x.symbol ≡ order.symbol))
            w
            t
  match_market_sell_order-fills full others =
      let (done, s) = match_market_sell_order-total E L C order w traded full others in
      let book = reverse w.order_books.buy_orders in
      subst
        (λ xs.
          ((match_market_sell_order E order w).0 ≡ ok matched)
          × Filled E order (min order.size (sum_by (λ x. x.size) xs))
              (λ x. (x.seller_id ≡ order.uid) × (x.symbol ≡ order.symbol)) w
              (match_market_sell_order E order w).1)
        (eligible-all book)
        (
          done,
          (
            Settled-Traded false order _ book
                (λ d. (d.seller_id ≡ order.uid) × (d.symbol ≡ order.symbol)) w _
                (λ e h. (refl, refl)) s,
            Settled-HasSize E false order _ book w _ (All-reverse _ w.order_books.buy_orders others)
                own s,
          ),
        )
