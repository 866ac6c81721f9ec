-- ===== src/OrderBook/Frames.antt =====
-- What each step leaves alone: reading and broadcasting change no row.
use exchange_backend.Base.{ℕ, String, ◌≡◌, refl, ◌∙◌, List, [], ◌∷◌}
use exchange_backend.Base.Action.{
  Action, Result, ok, err, Ends, Ends-mono, Ends-always, proceed, ◌>>=◌,
}
use exchange_backend.Repository.{FindOptions}
use exchange_backend.Repository.Order.{Direction}
use exchange_backend.OrderBook.Entity.{OrderBook, Trade}
use exchange_backend.OrderBook.World.{
  Env, World, IsLawfulEnv, order_rows, trade_rows, on_orders, on_trades, new_date, DayStats,
}
use exchange_backend.OrderBook.Database.{
  find_orders, get_all_trades, last_24_hours_data, price_before_24_hour, get_user_orders_no_side,
}
use exchange_backend.OrderBook.Broadcast.{fill_order_book, emit_socket_data, send}

-- The rows of both tables are as before.
abbrev pub Same : (E : Env) → World E → World E → Type 0
Same E w w' = (order_rows E w' ≡ order_rows E w) × (trade_rows E w' ≡ trade_rows E w)

-- An action that changes no row, whether it throws or not.
pub record Keeps {A : Type 0} (E : Env) (m : Action (World E) A) : Type 0 where
  pub same : (w : World E) → Same E w (m w).1

module _ {A B : Type 0} {E : Env} where
  Keeps-proceed :
      (f : A → Action (World E) B) (w : World E) (p : Result A × World E)
      → ((a : A) → Keeps E (f a))
      → Same E w p.1
      → Same E w (proceed f p).1
  Keeps-proceed f w (ok a, t) k (o, u) = (((k a).same t).0 ∙ o, ((k a).same t).1 ∙ u)
  Keeps-proceed f w (err e, t) k same = same

  pub Keeps-bind :
      (m : Action (World E) A) (f : A → Action (World E) B)
      → Keeps E m
      → ((a : A) → Keeps E (f a))
      → Keeps E (m >>= f)
  unfolding ◌>>=◌
  Keeps-bind m f h k = record { same = λ w. Keeps-proceed f w (m w) k (h.same w) }

pub Keeps-Ends :
    {A : Type 0} {E : Env} (m : Action (World E) A) (w : World E)
    → Keeps E m
    → Ends (Same E w) (λ _. Same E w) (m w)
Keeps-Ends {E} m w k = Ends-always (Same E w) (m w) (k.same w)

pub new_date-Keeps : {E : Env} → Keeps E (new_date E)
new_date-Keeps = record { same = λ w. (refl, refl) }

-- Where nothing is asked of an action that throws.
abbrev pub Anything : {E : Env} → World E → Type 0
Anything w = Unit

pub Keeps-done :
    {A : Type 0} {E : Env} (m : Action (World E) A) (w : World E)
    → Keeps E m
    → Ends Anything (λ _. Same E w) (m w)
Keeps-done m w k = Ends-mono (λ t h. tt) (λ a t h. h) (Keeps-Ends m w k)

module _ (E : Env) (L : IsLawfulEnv E) where
  find_order-Keeps : (o : FindOptions OrderBook) → Keeps E (on_orders E (E.orders.find o))
  find_order-Keeps o = record { same = λ w. (L.orders_lawful.rows-find o w.orders, refl) }

  find_trade-Keeps : (o : FindOptions Trade) → Keeps E (on_trades E (E.trades.find o))
  find_trade-Keeps o = record { same = λ w. (refl, L.trades_lawful.rows-find o w.trades) }

  pub find_orders-Keeps :
      (side symbol : String) (limit : ℕ) (d : Direction)
      → Keeps E (find_orders E side symbol limit d)
  unfolding find_orders
  find_orders-Keeps side symbol limit d = find_order-Keeps _

  pub fill_order_book-Keeps : (symbol : String) → Keeps E (fill_order_book E symbol)
  unfolding fill_order_book find_orders
  fill_order_book-Keeps symbol =
      Keeps-bind _ _ (find_order-Keeps _)
        λ buys. Keeps-bind _ _ (find_order-Keeps _) λ sells. record { same = λ w. (refl, refl) }

  pub get_user_orders_no_side-Keeps :
      (user_id : ℕ) (symbol : String) (limit : ℕ)
      → Keeps E (get_user_orders_no_side E user_id symbol limit)
  unfolding get_user_orders_no_side
  get_user_orders_no_side-Keeps user_id symbol limit = find_order-Keeps _

  pub get_all_trades-Keeps : (symbol : String) (limit : ℕ) → Keeps E (get_all_trades E symbol limit)
  unfolding get_all_trades
  get_all_trades-Keeps symbol limit = find_trade-Keeps _

  pub last_24_hours_data-Keeps : Keeps E (last_24_hours_data E)
  unfolding last_24_hours_data
  last_24_hours_data-Keeps =
      Keeps-bind _ _ new_date-Keeps
        λ now. Keeps-bind _ _ (find_trade-Keeps _) λ found. record { same = λ w. (refl, refl) }

  pub price_before_24_hour-Keeps : Keeps E (price_before_24_hour E)
  unfolding price_before_24_hour
  price_before_24_hour-Keeps =
      Keeps-bind _ _ new_date-Keeps
        λ now. Keeps-bind _ _ (find_trade-Keeps _) λ found. record { same = λ w. (refl, refl) }

  send-Keeps :
      (trades : List Trade) (stats : DayStats) (before : ℕ) → Keeps E (send E trades stats before)
  unfolding send
  send-Keeps [] stats before = record { same = λ w. (refl, refl) }
  send-Keeps (t ∷ ts) stats before = record { same = λ w. (refl, refl) }

  pub emit_socket_data-Keeps : (symbol : String) → Keeps E (emit_socket_data E symbol)
  unfolding emit_socket_data
  emit_socket_data-Keeps symbol = Keeps-bind _ _ (fill_order_book-Keeps symbol) λ _.
      Keeps-bind _ _ (get_all_trades-Keeps symbol 20) λ trades.
        Keeps-bind _ _ last_24_hours_data-Keeps λ stats.
          Keeps-bind _ _ price_before_24_hour-Keeps λ before. send-Keeps trades stats before
