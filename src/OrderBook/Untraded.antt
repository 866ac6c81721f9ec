-- ===== src/OrderBook/Untraded.antt =====
-- `emitSocketData` reads `trades[0]` of its symbol. While the symbol has no trade that throws, and so
-- the code never reaches the point at which it would record the first trade.
pub mod Loop
pub mod Orders
use exchange_backend.Base.{
  ℕ, ◌≡◌, refl, sym, subst, inl, inr, false, List, [], ◌∷◌, String, str_eq, Option-cases,
}
use exchange_backend.Base.Lists.{All}
use exchange_backend.Base.Action.{
  Action, type_error, Ends, Ends-always, Ends-throw, Ends-bind, ◌>>=◌, ◌>>◌,
}
use exchange_backend.Repository.{FindOptions}
use exchange_backend.Repository.Laws.{find-nothing}
use exchange_backend.OrderBook.Entity.{OrderBook, Trade, OrderUpdate}
use exchange_backend.OrderBook.World.{
  Env, World, IsLawfulEnv, DayStats, trade_rows, on_trades, new_date,
}
use exchange_backend.OrderBook.Database.{get_all_trades, trades_of, update_order_book}
use exchange_backend.OrderBook.Broadcast.{emit_socket_data, send}
use exchange_backend.OrderBook.Matching.{Terms, update_order, fill_entire, fill_partial}
use exchange_backend.OrderBook.Frames.{
  Same, Keeps, new_date-Keeps, fill_order_book-Keeps, last_24_hours_data-Keeps,
  price_before_24_hour-Keeps,
}

-- No trade of the symbol is recorded.
abbrev pub IsUntraded : (E : Env) → String → World E → Type 0
IsUntraded E symbol w = All (λ t. str_eq t.symbol symbol ≡ false) (trade_rows E w)

module _ {A : Type 0} (E : Env) (symbol : String) where
  pub Keeps-IsUntraded :
      (m : Action (World E) A) (w : World E)
      → Keeps E m
      → IsUntraded E symbol w
      → Ends (IsUntraded E symbol) (λ _. IsUntraded E symbol) (m w)
  Keeps-IsUntraded m w k h =
      Ends-always (IsUntraded E symbol) (m w)
        (subst (All (λ t. str_eq t.symbol symbol ≡ false)) (sym (k.same w).1) h)

module _ (E : Env) (L : IsLawfulEnv E) (symbol : String) where
  get_all_trades-IsUntraded :
      (limit : ℕ) (w : World E)
      → IsUntraded E symbol w
      → Ends
          (IsUntraded E symbol)
          (λ found t. (found ≡ []) × IsUntraded E symbol t)
          (get_all_trades E symbol limit w)
  unfolding get_all_trades
  get_all_trades-IsUntraded limit w h =
      let o : FindOptions Trade = trades_of symbol limit in
      let same : IsUntraded E symbol (on_trades E (E.trades.find o) w).1 =
        subst (All (λ t. str_eq t.symbol symbol ≡ false))
          (sym (L.trades_lawful.rows-find o w.trades)) h in
      elim (Option-cases (E.trades.find o w.trades).0) [
        | inl rejected ↦ record { ends = rw rejected same }
        | inr (found, e) ↦ record {
          ends = rw e (find-nothing L.trades_lawful o w.trades e h, same);
        }
      ]

  send-nothing :
      (found : List Trade) (stats : DayStats) (before : ℕ) (w : World E)
      → found ≡ []
      → IsUntraded E symbol w
      → Ends (IsUntraded E symbol) (λ _ _. ⊥) (send E found stats before w)
  unfolding send
  send-nothing [] stats before w e h = Ends-throw type_error w h
  send-nothing (t ∷ ts) stats before w e h = absurd (cc)

  -- The broadcast of a symbol without a trade throws.
  pub emit_socket_data-IsUntraded :
      (w : World E)
      → IsUntraded E symbol w
      → Ends (IsUntraded E symbol) (λ _ _. ⊥) (emit_socket_data E symbol w)
  unfolding emit_socket_data
  emit_socket_data-IsUntraded w h =
      Ends-bind _ _ w (Keeps-IsUntraded E symbol _ w (fill_order_book-Keeps E L symbol) h)
        λ _ w₁ h₁. Ends-bind _ _ w₁ (get_all_trades-IsUntraded 20 w₁ h₁) λ found w₂ h₂.
          Ends-bind _ _ w₂ (Keeps-IsUntraded E symbol _ w₂ (last_24_hours_data-Keeps E L) h₂.1)
            λ stats w₃ h₃.
              Ends-bind _ _ w₃ (Keeps-IsUntraded E symbol _ w₃ (price_before_24_hour-Keeps E L) h₃)
                λ before w₄ h₄. send-nothing found stats before w₄ h₂.0 h₄

  pub update_order_book-IsUntraded :
      (id : ℕ) (u : OrderUpdate) (w : World E)
      → IsUntraded E symbol w
      → Ends (IsUntraded E symbol) (λ _. IsUntraded E symbol) (update_order_book E id u w)
  unfolding update_order_book
  update_order_book-IsUntraded id u w h = Ends-always (IsUntraded E symbol) _ h

  -- So no update of an order of the symbol succeeds, and neither branch gets past its first one.
  update_order-IsUntraded :
      (id : ℕ) (u : OrderUpdate) (w : World E)
      → IsUntraded E symbol w
      → Ends (IsUntraded E symbol) (λ _ _. ⊥) (update_order E symbol id u w)
  unfolding update_order
  update_order-IsUntraded id u w h =
      Ends-bind _ _ w (update_order_book-IsUntraded id u w h)
        λ _ t g. emit_socket_data-IsUntraded t g

  pub date-IsUntraded :
      (w : World E)
      → IsUntraded E symbol w
      → Ends (IsUntraded E symbol) (λ _. IsUntraded E symbol) (new_date E w)
  date-IsUntraded w h = Keeps-IsUntraded E symbol (new_date E) w new_date-Keeps h

  module _ (T : Terms) where
    pub fill_entire-stuck :
        (order x : OrderBook) (w : World E)
        → order.symbol ≡ symbol
        → IsUntraded E symbol w
        → Ends (IsUntraded E symbol) (λ _ _. ⊥) (fill_entire E T order x w)
    unfolding fill_entire
    fill_entire-stuck order x w e h = Ends-bind _ _ w (date-IsUntraded w h) λ date w₁ h₁.
        Ends-bind {Mid = λ _ _. ⊥} _ _ w₁ (rw e (update_order-IsUntraded order.id _ w₁ h₁))
          λ _ _ f. absurd f

    pub fill_partial-stuck :
        (order x : OrderBook) (w : World E)
        → order.symbol ≡ symbol
        → IsUntraded E symbol w
        → Ends (IsUntraded E symbol) (λ _ _. ⊥) (fill_partial E T order x w)
    unfolding fill_partial
    fill_partial-stuck order x w e h = Ends-bind _ _ w (date-IsUntraded w h) λ date w₁ h₁.
        Ends-bind {Mid = λ _ _. ⊥} _ _ w₁ (rw e (update_order-IsUntraded x.id _ w₁ h₁))
          λ _ _ f. absurd f
