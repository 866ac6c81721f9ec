-- ===== src/OrderBook/Success.antt =====
-- When no call of the database is rejected and the symbol has a trade, no step of matching throws.
use exchange_backend.Base.{
  ℕ, ◌≡◌, refl, ◌∙◌, ap, subst, inl, inr, false, List, [], ◌∷◌, String, str_eq, leb, ◌==◌, Bool,
  Bool-cases,
}
use exchange_backend.Base.Lists.{All, All-left}
use exchange_backend.Base.Action.{Action, Ends, Ends-bind, Ends-pure, ◌>>=◌}
use exchange_backend.Repository.{IsReliable, FindOptions}
use exchange_backend.Repository.Laws.{nothing-found}
use exchange_backend.OrderBook.Entity.{Fill, OrderBook, Trade, OrderUpdate, write_order}
use exchange_backend.OrderBook.World.{
  Env, World, IsLawfulEnv, DayStats, on_orders, on_trades, new_date,
}
use exchange_backend.OrderBook.Database.{
  find_orders, get_all_trades, trades_of, last_24_hours_data, price_before_24_hour, save_trade_row,
  update_order_book,
}
use exchange_backend.OrderBook.Broadcast.{fill_order_book, emit_socket_data, send}
use exchange_backend.OrderBook.Matching.{
  Terms, remainder, update_order, save_trade, settle_resting, fill_entire, fill_partial, match_loop,
}
use exchange_backend.OrderBook.Steps.{priced}
use exchange_backend.OrderBook.Settlement.{IsFair}
use exchange_backend.OrderBook.Untraded.{IsUntraded}

pub record IsReliableEnv (E : Env) : Type 0 where
  pub orders_reliable : IsReliable E.orders
  pub trades_reliable : IsReliable E.trades

-- Some trade of the symbol is recorded.
abbrev pub IsTraded : (E : Env) → String → World E → Type 0
IsTraded E symbol w = IsUntraded E symbol w → ⊥

-- An action that does not throw where the symbol is traded, and leaves it so.
pub record Works {A : Type 0} (E : Env) (symbol : String) (m : Action (World E) A) : Type 0 where
  pub works : (w : World E) → IsTraded E symbol w → Ends (λ _. ⊥) (λ _. IsTraded E symbol) (m w)

module _ {A B : Type 0} {E : Env} {symbol : String} where
  pub Works-bind :
      (m : Action (World E) A) (f : A → Action (World E) B)
      → Works E symbol m
      → ((a : A) → Works E symbol (f a))
      → Works E symbol (m >>= f)
  Works-bind m f h k = record {
    works = λ w t. Ends-bind m f w (h.works w t) λ a v u. (k a).works v u;
  }

module _ (E : Env) (L : IsLawfulEnv E) (C : IsReliableEnv E) (symbol : String) where
  find_orders-Works : (o : FindOptions OrderBook) → Works E symbol (on_orders E (E.orders.find o))
  find_orders-Works o = record {
    works = λ w t. let (found, e) = C.orders_reliable.finds o w.orders in record { ends = rw e t };
  }

  find_trades-Works : (o : FindOptions Trade) → Works E symbol (on_trades E (E.trades.find o))
  find_trades-Works o = record {
    works = λ w t.
        let (found, e) = C.trades_reliable.finds o w.trades in
        record {
          ends = rw e λ u. t (
              subst (All (λ x. str_eq x.symbol symbol ≡ false))
                (L.trades_lawful.rows-find o w.trades) u);
        };
  }

  new_date-Works : Works E symbol (new_date E)
  new_date-Works = record { works = λ w t. Ends-pure _ _ t }

  fill_order_book-Works : (other : String) → Works E symbol (fill_order_book E other)
  unfolding fill_order_book find_orders
  fill_order_book-Works other = Works-bind _ _ (find_orders-Works _) λ buys.
      Works-bind _ _ (find_orders-Works _) λ sells. record { works = λ w t. Ends-pure tt _ t }

  last_24_hours_data-Works : Works E symbol (last_24_hours_data E)
  unfolding last_24_hours_data
  last_24_hours_data-Works =
      Works-bind _ _ new_date-Works λ now.
        Works-bind _ _ (find_trades-Works _) λ found. record { works = λ w t. Ends-pure _ w t }

  price_before_24_hour-Works : Works E symbol (price_before_24_hour E)
  unfolding price_before_24_hour
  price_before_24_hour-Works =
      Works-bind _ _ new_date-Works λ now.
        Works-bind _ _ (find_trades-Works _) λ found. record { works = λ w t. Ends-pure _ w t }

  get_all_trades-finds :
      (w : World E)
      → IsTraded E symbol w
      → Ends
          (λ _. ⊥)
          (λ found t. (found ≡ [] → ⊥) × IsTraded E symbol t)
          (get_all_trades E symbol 20 w)
  unfolding get_all_trades
  get_all_trades-finds w t =
      let o : FindOptions Trade = trades_of symbol 20 in
      let (found, e) = C.trades_reliable.finds o w.trades in
      record {
        ends = rw e (
          (λ empty. t (nothing-found L.trades_lawful o w.trades e 19 refl empty)),
          (λ u. t (
              subst (All (λ x. str_eq x.symbol symbol ≡ false))
                (L.trades_lawful.rows-find o w.trades) u)),
        );
      }

  send-Works :
      (found : List Trade) (stats : DayStats) (before : ℕ) (w : World E)
      → (found ≡ [] → ⊥)
      → IsTraded E symbol w
      → Ends (λ _. ⊥) (λ _. IsTraded E symbol) (send E found stats before w)
  unfolding send
  send-Works [] stats before w h t = absurd (h refl)
  send-Works (x ∷ found) stats before w h t = Ends-pure tt _ t

  emit_socket_data-Works : Works E symbol (emit_socket_data E symbol)
  unfolding emit_socket_data
  emit_socket_data-Works = record {
    works = λ w t. Ends-bind _ _ w ((fill_order_book-Works symbol).works w t) λ _ w₁ t₁.
        Ends-bind _ _ w₁ (get_all_trades-finds w₁ t₁) λ found w₂ t₂.
          Ends-bind _ _ w₂ (last_24_hours_data-Works.works w₂ t₂.1) λ stats w₃ t₃.
            Ends-bind _ _ w₃ (price_before_24_hour-Works.works w₃ t₃)
              λ before w₄ t₄. send-Works found stats before w₄ t₂.0 t₄;
  }

  update_order-Works : (id : ℕ) (u : OrderUpdate) → Works E symbol (update_order E symbol id u)
  unfolding update_order update_order_book
  update_order-Works id u =
      Works-bind _ _
        (record {
          works = λ w t. record {
            ends = rw (C.orders_reliable.updates (λ r. r.id == id) (write_order u) w.orders) t;
          };
        })
        λ _. emit_socket_data-Works

  save_trade-Works : (trade : Trade) → trade.symbol ≡ symbol → Works E symbol (save_trade E trade)
  unfolding save_trade save_trade_row
  save_trade-Works trade same =
      Works-bind _ _
        (record {
          works = λ w t.
              let (row, e) = C.trades_reliable.saves (priced trade) w.trades in
              record {
                ends = rw e λ u. t (
                    All-left _ _ (row ∷ []) (
                      subst (All (λ x. str_eq x.symbol symbol ≡ false))
                        (rw e at (L.trades_lawful.rows-save (priced trade) w.trades)) u));
              };
        })
        λ _. rw same emit_socket_data-Works

  settle_resting-Works :
      (x : OrderBook) (left : ℕ) (fills : List Fill)
      → Works E symbol (settle_resting E symbol x left fills)
  unfolding settle_resting
  settle_resting-Works x left fills = elim (Bool-cases (left == 0)) [
    | inl done ↦ rw done (Works-bind _ _ new_date-Works λ date. update_order-Works x.id _)
    | inr more ↦ rw more (update_order-Works x.id _)
  ]

  module _ (T : Terms) (buys : Bool) (F : IsFair T buys) where
    fill_entire-Works :
        (order x : OrderBook) → order.symbol ≡ symbol → Works E symbol (fill_entire E T order x)
    unfolding fill_entire
    fill_entire-Works order x same = Works-bind _ _ new_date-Works λ date.
        Works-bind _ _ (rw same (update_order-Works order.id _)) λ _.
          Works-bind _ _ new_date-Works λ traded.
            Works-bind _ _
              (save_trade-Works _
                (ap (λ d. d.symbol) (F.entire_deal order x order.size traded) ∙ same))
              λ _. rw same (settle_resting-Works x _ _)

    fill_partial-Works :
        (order x : OrderBook) (w : World E)
        → order.symbol ≡ symbol
        → IsTraded E symbol w
        → Ends
            (λ _. ⊥)
            (λ order' t. (order' ≡ remainder T order x) × IsTraded E symbol t)
            (fill_partial E T order x w)
    unfolding fill_partial
    fill_partial-Works order x w same h = Ends-bind _ _ w (new_date-Works.works w h) λ date w₁ h₁.
        Ends-bind _ _ w₁ (rw same ((update_order-Works x.id _).works w₁ h₁)) λ _ w₂ h₂.
          Ends-bind _ _ w₂ (new_date-Works.works w₂ h₂) λ traded w₃ h₃.
            Ends-bind _ _ w₃
              ((save_trade-Works _
                  (ap (λ d. d.symbol) (F.partial_deal order x x.size traded) ∙ same)).works
                w₃ h₃)
              λ _ w₄ h₄.
                Ends-bind _ _ w₄ (rw same ((update_order-Works order.id _).works w₄ h₄))
                  λ _ t g. Ends-pure (remainder T order x) t (refl, g)

    pub match_loop-Works :
        (order : OrderBook) (xs : List OrderBook) (w : World E)
        → order.symbol ≡ symbol
        → IsTraded E symbol w
        → Ends (λ _. ⊥) (λ _. IsTraded E symbol) (match_loop E T order xs w)
    unfolding match_loop
    match_loop-Works order [] w same h = Ends-pure tt w h
    match_loop-Works order (x ∷ xs) w same h = elim (Bool-cases (T.stops order x)) [
      | inl stopped ↦ rw stopped (Ends-pure tt w h)
      | inr goes ↦ elim (Bool-cases (leb order.size x.size)) [
        | inl entire ↦ rw (goes, entire) ((fill_entire-Works order x same).works w h)
        | inr part ↦
            rw (goes, part)
              (Ends-bind _ _ w (fill_partial-Works order x w same h)
                λ order' t g. rw (g.0) (match_loop-Works (remainder T order x) xs t same g.1))
      ]
    ]
