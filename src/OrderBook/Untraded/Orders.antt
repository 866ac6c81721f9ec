-- ===== src/OrderBook/Untraded/Orders.antt =====
-- `handleOrder` on orders of any symbol: a symbol without a trade never gets one, and its own orders
-- are never answered with success.
use exchange_backend.Base.{
  ◌≡◌, refl, ◌∙◌, eq_iff, ap, subst, inl, inr, true, false, List, [], ◌∷◌, String, str_eq, reverse,
  Bool, none, Option-cases, Bool-cases,
}
use exchange_backend.Base.Lists.{All}
use exchange_backend.Base.Action.{
  Action, Result, ok, err, Ends, EndsAs, Ends-bind, Ends-mono, Ends-pure, Ends-state, catch,
  handled, proceed, pure, ◌>>=◌,
}
use exchange_backend.OrderBook.Entity.{OrderBook}
use exchange_backend.OrderBook.World.{Env, World, IsLawfulEnv}
use exchange_backend.OrderBook.Database.{save_order_book}
use exchange_backend.OrderBook.Broadcast.{emit_socket_data}
use exchange_backend.OrderBook.Matching.{
  Terms, Outcome, matched, not_placed, buy_terms, sell_terms, market_buy_terms, market_sell_terms,
  caught, guarded, match_market, match_loop, match_buy_order, match_sell_order,
  match_market_buy_order, match_market_sell_order,
}
use exchange_backend.OrderBook.Service.{
  Reply, save_order, save_market_order, match_limit_order, match_market_order, answer, handle_order,
  serve,
}
use exchange_backend.OrderBook.Frames.{
  emit_socket_data-Keeps, fill_order_book-Keeps, get_user_orders_no_side-Keeps,
}
use exchange_backend.OrderBook.Settlement.{
  IsFair, buy_terms-IsFair, sell_terms-IsFair, market_buy_terms-IsFair, market_sell_terms-IsFair,
}
use exchange_backend.OrderBook.Untraded.{IsUntraded, Keeps-IsUntraded, emit_socket_data-IsUntraded}
use exchange_backend.OrderBook.Untraded.Loop.{
  StaysUntraded, match_loop-stuck, match_loop-StaysUntraded,
}

differ_absurd : {b : Bool} → b ≡ false → b ≡ true → ⊥
differ_absurd e f = cc

abbrev SuccessIsFalse : Result Reply → Type 0
SuccessIsFalse (ok reply) = reply.success ≡ false
SuccessIsFalse (err e) = ⊥

module _ (E : Env) (symbol : String) where
  caught-StaysAs :
      (p : Result (Unit {0}) × World E)
      → EndsAs (IsUntraded E symbol) (λ _. IsUntraded E symbol) p
      → EndsAs
          (IsUntraded E symbol)
          (λ _. IsUntraded E symbol)
          (handled (λ e. pure not_placed) (proceed (λ _. pure matched) p))
  caught-StaysAs (ok a, t) h = h
  caught-StaysAs (err e, t) h = h

  caught-StaysUntraded :
      (m : Action (World E) (Unit {0})) (w : World E)
      → StaysUntraded E symbol (m w)
      → StaysUntraded E symbol (caught E m w)
  unfolding catch ◌>>=◌
  caught-StaysUntraded m w h = record { ends = caught-StaysAs (m w) h.ends }

  caught-fails_as :
      (p : Result (Unit {0}) × World E)
      → EndsAs (IsUntraded E symbol) (λ _ _. ⊥) p
      → EndsAs
          (IsUntraded E symbol)
          (λ g t. (g.success ≡ false) × IsUntraded E symbol t)
          (handled (λ e. pure not_placed) (proceed (λ _. pure matched) p))
  caught-fails_as (ok a, t) h = absurd h
  caught-fails_as (err e, t) h = (refl, h)

  caught-fails :
      (m : Action (World E) (Unit {0})) (w : World E)
      → Ends (IsUntraded E symbol) (λ _ _. ⊥) (m w)
      → Ends
          (IsUntraded E symbol)
          (λ g t. (g.success ≡ false) × IsUntraded E symbol t)
          (caught E m w)
  unfolding catch ◌>>=◌
  caught-fails m w h = record { ends = caught-fails_as (m w) h.ends }

module _ (E : Env) (L : IsLawfulEnv E) (symbol : String) (T : Terms) (buys : Bool)
    (F : IsFair T buys) where
  guarded-StaysUntraded :
      (crosses : OrderBook → Bool) (order : OrderBook) (xs : List OrderBook) (w : World E)
      → IsUntraded E symbol w
      → StaysUntraded E symbol (guarded E crosses T order xs w)
  guarded-StaysUntraded crosses order [] w h = Ends-pure tt w h
  guarded-StaysUntraded crosses order (x ∷ xs) w h = elim (Bool-cases (crosses x)) [
    | inl crossing ↦ rw crossing (match_loop-StaysUntraded E L symbol T buys F order (x ∷ xs) w h)
    | inr apart ↦ rw apart (Ends-pure tt w h)
  ]

  -- What an order of the symbol cannot get, and what no order changes.
  match_market-IsUntraded :
      (order : OrderBook) (xs : List OrderBook) (w : World E)
      → ((x : OrderBook) → T.stops order x ≡ false)
      → IsUntraded E symbol w
      → Ends
          (IsUntraded E symbol)
          (λ g t. (order.symbol ≡ symbol → g.success ≡ false) × IsUntraded E symbol t)
          (match_market E T order xs w)
  match_market-IsUntraded order [] w goes h = Ends-pure _ w (λ _. refl, h)
  match_market-IsUntraded order (x ∷ xs) w goes h = record {
    ends =
        both _
          (caught-StaysUntraded E symbol (match_loop E T order (x ∷ xs)) w
            (match_loop-StaysUntraded E L symbol T buys F order (x ∷ xs) w h)).ends
          (λ same.
            (caught-fails E symbol (match_loop E T order (x ∷ xs)) w
              (match_loop-stuck E L symbol T buys F order x xs w same (goes x) h)).ends);
  }
    where
      both :
          (p : Result Outcome × World E)
          → EndsAs (IsUntraded E symbol) (λ _. IsUntraded E symbol) p
          → (order.symbol ≡ symbol
              → EndsAs (IsUntraded E symbol) (λ g t. (g.success ≡ false) × IsUntraded E symbol t) p)
          → EndsAs
              (IsUntraded E symbol)
              (λ g t. (order.symbol ≡ symbol → g.success ≡ false) × IsUntraded E symbol t)
              p
      both (ok g, t) a b = (λ same. (b same).0, a)
      both (err e, t) a b = a

module _ (E : Env) (L : IsLawfulEnv E) (symbol : String) where
  match_limit_order-StaysUntraded :
      (order : OrderBook) (w : World E)
      → IsUntraded E symbol w
      → StaysUntraded E symbol (match_limit_order E order w)
  unfolding match_limit_order match_buy_order match_sell_order ◌>>=◌
  match_limit_order-StaysUntraded order w h = elim (Bool-cases (str_eq order.side "BUY")) [
    | inl buy ↦ rw buy (
        caught-StaysUntraded E symbol _ w (
          guarded-StaysUntraded E L symbol buy_terms true buy_terms-IsFair _ order
            (reverse w.order_books.sell_orders) w h))
    | inr sell ↦ rw sell (
        caught-StaysUntraded E symbol _ w (
          guarded-StaysUntraded E L symbol sell_terms false sell_terms-IsFair _ order
            (reverse w.order_books.buy_orders) w h))
  ]

  match_market_order-IsUntraded :
      (order : OrderBook) (w : World E)
      → IsUntraded E symbol w
      → Ends
          (IsUntraded E symbol)
          (λ g t. (order.symbol ≡ symbol → g.success ≡ false) × IsUntraded E symbol t)
          (match_market_order E order w)
  unfolding match_market_order match_market_buy_order match_market_sell_order ◌>>=◌
  match_market_order-IsUntraded order w h = elim (Bool-cases (str_eq order.side "BUY")) [
    | inl buy ↦ rw buy (
        match_market-IsUntraded E L symbol market_buy_terms true market_buy_terms-IsFair order
          (reverse w.order_books.sell_orders) w (λ x. refl) h)
    | inr sell ↦ rw sell (
        match_market-IsUntraded E L symbol market_sell_terms false market_sell_terms-IsFair order
          (reverse w.order_books.buy_orders) w (λ x. refl) h)
  ]

  save_order_book-IsUntraded :
      (order : OrderBook) (w : World E)
      → order.id ≡ 0
      → IsUntraded E symbol w
      → Ends
          (IsUntraded E symbol)
          (λ saved t. (saved.symbol ≡ order.symbol) × IsUntraded E symbol t)
          (save_order_book E order w)
  unfolding save_order_book
  save_order_book-IsUntraded order w new h =
      elim (Option-cases (E.orders.save (record order { is_filled = false }) w.orders).0) [
        | inl rejected ↦ record { ends = rw rejected h }
        | inr (row, e) ↦ record {
          ends = rw e (
            ap (λ (r : OrderBook). r.symbol)
                (L.orders_lawful.save-some (record order { is_filled = false }) row w.orders new
                  e).0.1,
            h,
          );
        }
      ]

  emit-IsUntraded :
      (other : String) (w : World E)
      → IsUntraded E symbol w
      → Ends
          (IsUntraded E symbol)
          (λ _ t. (other ≡ symbol → ⊥) × IsUntraded E symbol t)
          (emit_socket_data E other w)
  emit-IsUntraded other w h = elim (Bool-cases (str_eq other symbol)) [
    | inl same ↦
        rw ((eq_iff _ _).0 same)
          (Ends-mono (λ _ g. g) (λ _ _ f. absurd f) (emit_socket_data-IsUntraded E L symbol w h))
    | inr differs ↦
        Ends-mono (λ _ g. g) (λ _ _ g. (λ e. differ_absurd differs ((eq_iff other symbol).1 e), g))
          (Keeps-IsUntraded E symbol _ w (emit_socket_data-Keeps E L other) h)
  ]

  save_order-IsUntraded :
      (order : OrderBook) (w : World E)
      → order.id ≡ 0
      → IsUntraded E symbol w
      → Ends
          (IsUntraded E symbol)
          (λ saved t. (order.symbol ≡ symbol → ⊥) × IsUntraded E symbol t)
          (save_order E order w)
  unfolding save_order
  save_order-IsUntraded order w new h =
      Ends-bind _ _ w (save_order_book-IsUntraded _ w new h) λ saved w₁ h₁.
        Ends-bind _ _ w₁
          (Keeps-IsUntraded E symbol _ w₁ (fill_order_book-Keeps E L order.symbol) h₁.1)
          λ _ w₂ h₂.
            Ends-bind _ _ w₂ (emit-IsUntraded order.symbol w₂ h₂) λ _ t g. Ends-pure saved t g

  save_market_order-IsUntraded :
      (order : OrderBook) (w : World E)
      → order.id ≡ 0
      → IsUntraded E symbol w
      → Ends
          (IsUntraded E symbol)
          (λ saved t. (saved.symbol ≡ order.symbol) × IsUntraded E symbol t)
          (save_market_order E order w)
  unfolding save_market_order
  save_market_order-IsUntraded order w new h =
      Ends-bind _ _ w (save_order_book-IsUntraded (record order { price = none }) w new h)
        λ saved w₁ h₁.
          Ends-bind _ _ w₁
            (Keeps-IsUntraded E symbol _ w₁ (fill_order_book-Keeps E L order.symbol) h₁.1)
            λ _ t g. Ends-pure saved t (h₁.0, g)

  answer-IsUntraded :
      (placed failed other : String) (g : Outcome) (same : Type 0) (w : World E)
      → (same → g.success ≡ false)
      → IsUntraded E symbol w
      → Ends
          (IsUntraded E symbol)
          (λ reply t. (same → reply.success ≡ false) × IsUntraded E symbol t)
          (answer E placed failed other g w)
  unfolding answer
  answer-IsUntraded placed failed other g same w fails h = elim (Bool-cases g.success) [
    | inl success ↦ rw success (
        Ends-bind _ _ w
          (Keeps-IsUntraded E symbol _ w (get_user_orders_no_side-Keeps E L 1 other 20) h)
          λ found t k. Ends-pure _ t (λ e. absurd (differ_absurd (fails e) success), k))
    | inr failure ↦ rw failure (Ends-pure _ w (λ _. refl, h))
  ]

  handle_order-Ends :
      (order : OrderBook) (w : World E)
      → order.id ≡ 0
      → IsUntraded E symbol w
      → Ends
          (IsUntraded E symbol)
          (λ reply t. (order.symbol ≡ symbol → reply.success ≡ false) × IsUntraded E symbol t)
          (handle_order E order w)
  unfolding handle_order
  handle_order-Ends order w new h = elim (Bool-cases (str_eq order.type "Market")) [
    | inl market ↦ rw market (
        Ends-bind _ _ w
          (save_market_order-IsUntraded (record order { org_size = order.size }) w new h)
          λ saved w₁ h₁. Ends-bind _ _ w₁ (match_market_order-IsUntraded saved w₁ h₁.1) λ g w₂ h₂.
            answer-IsUntraded _ _ order.symbol g (order.symbol ≡ symbol) w₂ (λ e. h₂.0 (h₁.0 ∙ e))
              h₂.1)
    | inr limit ↦ rw limit (
        Ends-bind _ _ w (save_order-IsUntraded (record order { org_size = order.size }) w new h)
          λ saved w₁ h₁. Ends-bind _ _ w₁ (match_limit_order-StaysUntraded saved w₁ h₁.1) λ g w₂ h₂.
            answer-IsUntraded _ _ order.symbol g (order.symbol ≡ symbol) w₂ (λ e. absurd (h₁.0 e))
              h₂)
  ]

  -- Over lawful repositories, a new order of a symbol without a trade is never answered with success:
  -- `handleOrder` throws, or its reply says that it failed. And the symbol still has no trade.
  pub handle_order-fails :
      (order : OrderBook) (w : World E)
      → order.id ≡ 0
      → order.symbol ≡ symbol
      → IsUntraded E symbol w
      → ((reply : Reply) → (handle_order E order w).0 ≡ ok reply → reply.success ≡ false)
        × IsUntraded E symbol (handle_order E order w).1
  handle_order-fails order w new same h = read _ (handle_order-Ends order w new h).ends
    where
      read :
          (p : Result Reply × World E)
          → EndsAs
              (IsUntraded E symbol)
              (λ reply t. (order.symbol ≡ symbol → reply.success ≡ false) × IsUntraded E symbol t)
              p
          → ((reply : Reply) → p.0 ≡ ok reply → reply.success ≡ false) × IsUntraded E symbol p.1
      read (ok r, t) (f, g) =
          (λ reply e. subst (λ (q : Result Reply). SuccessIsFalse q) e (f same), g)
      read (err e, t) g = (λ reply q. cc, g)

  -- Over lawful repositories, a symbol without a trade has none after any sequence of new orders of any
  -- symbols, handled one after the other.
  pub IsUntraded-forever :
      (orders : List OrderBook) (w : World E)
      → All (λ o. o.id ≡ 0) orders
      → IsUntraded E symbol w
      → IsUntraded E symbol (serve E orders w)
  unfolding serve
  IsUntraded-forever [] w new h = h
  IsUntraded-forever (o ∷ os) w new h =
      IsUntraded-forever os (handle_order E o w).1 new.1
        (Ends-state _ _ (Ends-mono (λ _ g. g) (λ _ _ g. g.1) (handle_order-Ends o w new.0 h)))
