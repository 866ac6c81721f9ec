-- ===== src/OrderBook/Steps.antt =====
-- What `updateOrder`, `saveTrade` and the two branches of the matching loops write when they succeed.
use exchange_backend.Base.{
  ℕ, ◌*◌, String, ◌≡◌, ◌≢◌, refl, ◌∙◌, ap, ap₂, List, [], ◌∷◌, ◌++◌, map, arith, ◌==◌,
  if◌then◌else◌, number, Bool-cases, Option-cases, inl, inr,
}
use exchange_backend.Base.Action.{Ends, Ends-bind, Ends-mono}
use exchange_backend.OrderBook.Entity.{Fill, OrderBook, Trade, OrderUpdate, write_order}
use exchange_backend.OrderBook.World.{Env, World, IsLawfulEnv, order_rows, trade_rows, new_date}
use exchange_backend.OrderBook.Database.{save_trade_row, update_order_book}
use exchange_backend.OrderBook.Matching.{
  filled_update, reduced_update, update_order, save_trade, settle_resting,
}
use exchange_backend.OrderBook.Executions.{Standing, standing, deal, post}
use exchange_backend.OrderBook.Frames.{Anything, Keeps-done, new_date-Keeps, emit_socket_data-Keeps}

abbrev pub standings : (E : Env) → World E → List Standing
standings E w = map standing (order_rows E w)

-- The trade as `saveTrade` of the database service completes it.
abbrev pub priced : Trade → Trade
priced t = record t { volume = number t.price * t.size }

-- A successful update of an order: no trade, and the given standings.
abbrev pub Updated : (E : Env) → World E → List Standing → World E → Type 0
Updated E w rows t = (trade_rows E t ≡ trade_rows E w) × (standings E t ≡ rows)

-- A trade is recorded, and no order is touched.
abbrev pub Recorded : (E : Env) → World E → Trade → World E → Type 0
Recorded E w trade t =
    (standings E t ≡ standings E w)
    × ((row : Trade) × (trade_rows E t ≡ trade_rows E w ++ (row ∷ []))
        × (deal row ≡ deal (priced trade)))

standings-filled :
    (id date : ℕ) (fills : List Fill) (rows : List OrderBook)
    → map standing
        (map (λ r. if r.id == id then write_order (filled_update date fills) r else r) rows)
      ≡ post id 0 (map standing rows)
standings-filled id date fills [] = refl
standings-filled id date fills (r ∷ rows) = ground (arith, standings-filled id date fills rows)

standings-reduced :
    (id left : ℕ) (fills : List Fill) (rows : List OrderBook)
    → left ≢ 0
    → map standing
        (map (λ r. if r.id == id then write_order (reduced_update left fills) r else r) rows)
      ≡ post id left (map standing rows)
standings-reduced id left fills [] h = refl
standings-reduced id left fills (r ∷ rows) h =
    ground (arith, standings-reduced id left fills rows h)

module _ (E : Env) (L : IsLawfulEnv E) where
  update_order_book-Ends :
      (id : ℕ) (u : OrderUpdate) (w : World E)
      → Ends Anything
          (λ _ t.
            (trade_rows E t ≡ trade_rows E w)
            × (order_rows E t
                ≡ map (λ r. if r.id == id then write_order u r else r) (order_rows E w)))
          (update_order_book E id u w)
  unfolding update_order_book
  update_order_book-Ends id u w = record {
    ends = ground (arith, L.orders_lawful.rows-update (λ r. r.id == id) (write_order u) w.orders);
  }

  update_order-Updated :
      (symbol : String) (id : ℕ) (u : OrderUpdate) (rows : List Standing) (w : World E)
      → map standing (map (λ r. if r.id == id then write_order u r else r) (order_rows E w)) ≡ rows
      → Ends Anything (λ _. Updated E w rows) (update_order E symbol id u w)
  unfolding update_order
  update_order-Updated symbol id u rows w h =
      Ends-bind _ _ w (update_order_book-Ends id u w) λ _ t written.
        Ends-mono (λ _ _. tt)
          (λ _ v same. (same.1 ∙ written.0, ap (map standing) (same.0 ∙ written.1) ∙ h))
          (Keeps-done _ t (emit_socket_data-Keeps E L symbol))

  pub update_order-filled :
      (symbol : String) (id date : ℕ) (fills : List Fill) (w : World E)
      → Ends Anything
          (λ _. Updated E w (post id 0 (standings E w)))
          (update_order E symbol id (filled_update date fills) w)
  update_order-filled symbol id date fills w =
      update_order-Updated symbol id _ _ w (standings-filled id date fills (order_rows E w))

  pub update_order-reduced :
      (symbol : String) (id left : ℕ) (fills : List Fill) (w : World E)
      → left ≢ 0
      → Ends Anything
          (λ _. Updated E w (post id left (standings E w)))
          (update_order E symbol id (reduced_update left fills) w)
  update_order-reduced symbol id left fills w h =
      update_order-Updated symbol id _ _ w (standings-reduced id left fills (order_rows E w) h)

  pub settle_resting-Updated :
      (symbol : String) (resting : OrderBook) (left : ℕ) (fills : List Fill) (w : World E)
      → Ends Anything
          (λ _. Updated E w (post resting.id left (standings E w)))
          (settle_resting E symbol resting left fills w)
  unfolding settle_resting
  settle_resting-Updated symbol resting left fills w = elim (Bool-cases (left == 0)) [
    | inl done ↦ rw done (
        Ends-bind (new_date E) _ w (Keeps-done (new_date E) w new_date-Keeps) λ date t same.
          Ends-mono (λ _ _. tt)
            (λ _ v u.
              (u.0 ∙ same.1, u.1 ∙ ap₂ (post resting.id) (ground arith) (ap (map standing) same.0)))
            (update_order-filled symbol resting.id date fills t))
    | inr more ↦ rw more (update_order-reduced symbol resting.id left fills w (ground arith))
  ]

  save_trade_row-Recorded :
      (trade : Trade) (w : World E)
      → trade.id ≡ 0
      → Ends Anything (λ _. Recorded E w trade) (save_trade_row E trade w)
  unfolding save_trade_row
  save_trade_row-Recorded trade w new =
      elim (Option-cases (E.trades.save (priced trade) w.trades).0) [
        | inl rejected ↦ record { ends = rw rejected tt }
        | inr (row, e) ↦ record {
          ends = rw e (
            refl,
            (
              row,
              rw e at (L.trades_lawful.rows-save (priced trade) w.trades),
              ap deal (L.trades_lawful.save-some (priced trade) row w.trades new e).0.1,
            ),
          );
        }
      ]

  pub save_trade-Recorded :
      (trade : Trade) (w : World E)
      → trade.id ≡ 0
      → Ends Anything (λ _. Recorded E w trade) (save_trade E trade w)
  unfolding save_trade
  save_trade-Recorded trade w new =
      Ends-bind _ _ w (save_trade_row-Recorded trade w new) λ _ t (same, (row, rows, d)).
        Ends-mono (λ _ _. tt)
          (λ _ v kept. (ap (map standing) kept.0 ∙ same, (row, kept.1 ∙ rows, d)))
          (Keeps-done _ t (emit_socket_data-Keeps E L trade.symbol))
