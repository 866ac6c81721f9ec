-- ===== src/OrderBook/Untraded/Loop.antt =====
-- The matching loops leave a symbol without trades as it is, whatever order they match.
use exchange_backend.Base.{
  ℕ, ◌≡◌, refl, sym, ◌∙◌, ap, subst, inl, inr, false, List, [], ◌∷◌, String, str_eq, eq_iff, leb,
  Bool, ◌==◌, Option-cases, Bool-cases,
}
use exchange_backend.Base.Lists.{All, All-append}
use exchange_backend.Base.Action.{Result, Ends, Ends-bind, Ends-mono, Ends-pure}
use exchange_backend.OrderBook.Entity.{Fill, OrderBook, Trade, OrderUpdate}
use exchange_backend.OrderBook.World.{Env, World, IsLawfulEnv}
use exchange_backend.OrderBook.Database.{save_trade_row}
use exchange_backend.OrderBook.Matching.{
  Terms, remainder, update_order, save_trade, settle_resting, fill_entire, fill_partial, match_loop,
}
use exchange_backend.OrderBook.Frames.{emit_socket_data-Keeps}
use exchange_backend.OrderBook.Steps.{priced}
use exchange_backend.OrderBook.Settlement.{IsFair}
use exchange_backend.OrderBook.Untraded.{
  IsUntraded, Keeps-IsUntraded, update_order_book-IsUntraded, date-IsUntraded, fill_entire-stuck,
  fill_partial-stuck,
}

-- The symbol is untraded after the action, however it ended.
abbrev pub StaysUntraded : {A : Type 0} (E : Env) → String → Result A × World E → Type 0
StaysUntraded {A} E symbol p = Ends {A = A} (IsUntraded E symbol) (λ _. IsUntraded E symbol) p

module _ (E : Env) (L : IsLawfulEnv E) (symbol : String) where
  pub update_order-StaysUntraded :
      (other : String) (id : ℕ) (u : OrderUpdate) (w : World E)
      → IsUntraded E symbol w
      → StaysUntraded E symbol (update_order E other id u w)
  unfolding update_order
  update_order-StaysUntraded other id u w h =
      Ends-bind _ _ w (update_order_book-IsUntraded E L symbol id u w h)
        λ _ t g. Keeps-IsUntraded E symbol _ t (emit_socket_data-Keeps E L other) g

  save_trade_row-StaysUntraded :
      (trade : Trade) (w : World E)
      → trade.id ≡ 0
      → str_eq trade.symbol symbol ≡ false
      → IsUntraded E symbol w
      → StaysUntraded E symbol (save_trade_row E trade w)
  unfolding save_trade_row
  save_trade_row-StaysUntraded trade w new other h =
      elim (Option-cases (E.trades.save (priced trade) w.trades).0) [
        | inl rejected ↦ record {
          ends = rw rejected (
              subst (All (λ t. str_eq t.symbol symbol ≡ false))
                (sym (rw rejected at (L.trades_lawful.rows-save (priced trade) w.trades))) h);
        }
        | inr (row, e) ↦ record {
          ends = rw e (
              subst (All (λ t. str_eq t.symbol symbol ≡ false))
                (sym (rw e at (L.trades_lawful.rows-save (priced trade) w.trades)))
                (All-append _ _ (row ∷ []) h (
                  ap (λ (t : Trade). str_eq t.symbol symbol)
                        (L.trades_lawful.save-some (priced trade) row w.trades new e).0.1
                      ∙ other,
                  tt,
                )));
        }
      ]

  save_trade-StaysUntraded :
      (trade : Trade) (w : World E)
      → trade.id ≡ 0
      → str_eq trade.symbol symbol ≡ false
      → IsUntraded E symbol w
      → StaysUntraded E symbol (save_trade E trade w)
  unfolding save_trade
  save_trade-StaysUntraded trade w new other h =
      Ends-bind _ _ w (save_trade_row-StaysUntraded trade w new other h)
        λ _ t g. Keeps-IsUntraded E symbol _ t (emit_socket_data-Keeps E L trade.symbol) g

  settle_resting-StaysUntraded :
      (other : String) (x : OrderBook) (left : ℕ) (fills : List Fill) (w : World E)
      → IsUntraded E symbol w
      → StaysUntraded E symbol (settle_resting E other x left fills w)
  unfolding settle_resting
  settle_resting-StaysUntraded other x left fills w h = elim (Bool-cases (left == 0)) [
    | inl done ↦ rw done (
        Ends-bind _ _ w (date-IsUntraded E L symbol w h)
          λ date t g. update_order-StaysUntraded other x.id _ t g)
    | inr more ↦ rw more (update_order-StaysUntraded other x.id _ w h)
  ]

  module _ (T : Terms) (buys : Bool) (F : IsFair T buys) where
    fill_entire-other :
        (order x : OrderBook) (w : World E)
        → str_eq order.symbol symbol ≡ false
        → IsUntraded E symbol w
        → StaysUntraded E symbol (fill_entire E T order x w)
    unfolding fill_entire
    fill_entire-other order x w other h =
        Ends-bind _ _ w (date-IsUntraded E L symbol w h) λ date w₁ h₁.
          Ends-bind _ _ w₁ (update_order-StaysUntraded order.symbol order.id _ w₁ h₁) λ _ w₂ h₂.
            Ends-bind _ _ w₂ (date-IsUntraded E L symbol w₂ h₂) λ traded w₃ h₃.
              Ends-bind _ _ w₃
                (save_trade-StaysUntraded _ w₃ (F.entire_new order x order.size traded)
                  (ap (λ d. str_eq d.symbol symbol) (F.entire_deal order x order.size traded)
                    ∙ other)
                  h₃)
                λ _ w₄ h₄. settle_resting-StaysUntraded order.symbol x _ _ w₄ h₄

    fill_partial-other :
        (order x : OrderBook) (w : World E)
        → str_eq order.symbol symbol ≡ false
        → IsUntraded E symbol w
        → Ends
            (IsUntraded E symbol)
            (λ order' t. (order' ≡ remainder T order x) × IsUntraded E symbol t)
            (fill_partial E T order x w)
    unfolding fill_partial
    fill_partial-other order x w other h =
        Ends-bind _ _ w (date-IsUntraded E L symbol w h) λ date w₁ h₁.
          Ends-bind _ _ w₁ (update_order-StaysUntraded order.symbol x.id _ w₁ h₁) λ _ w₂ h₂.
            Ends-bind _ _ w₂ (date-IsUntraded E L symbol w₂ h₂) λ traded w₃ h₃.
              Ends-bind _ _ w₃
                (save_trade-StaysUntraded _ w₃ (F.partial_new order x x.size traded)
                  (ap (λ d. str_eq d.symbol symbol) (F.partial_deal order x x.size traded) ∙ other)
                  h₃)
                λ _ w₄ h₄.
                  Ends-bind _ _ w₄ (update_order-StaysUntraded order.symbol order.id _ w₄ h₄)
                    λ _ t g. Ends-pure (remainder T order x) t (refl, g)

    match_loop-other :
        (order : OrderBook) (xs : List OrderBook) (w : World E)
        → str_eq order.symbol symbol ≡ false
        → IsUntraded E symbol w
        → StaysUntraded E symbol (match_loop E T order xs w)
    unfolding match_loop
    match_loop-other order [] w other h = Ends-pure tt w h
    match_loop-other order (x ∷ xs) w other h = elim (Bool-cases (T.stops order x)) [
      | inl stopped ↦ rw stopped (Ends-pure tt w h)
      | inr goes ↦ elim (Bool-cases (leb order.size x.size)) [
        | inl entire ↦ rw (goes, entire) (fill_entire-other order x w other h)
        | inr part ↦
            rw (goes, part)
              (Ends-bind _ _ w (fill_partial-other order x w other h)
                λ order' t g. rw (g.0) (match_loop-other (remainder T order x) xs t other g.1))
      ]
    ]

    -- An order of the symbol itself throws at the first resting order that does not stop it.
    pub match_loop-stuck :
        (order x : OrderBook) (xs : List OrderBook) (w : World E)
        → order.symbol ≡ symbol
        → T.stops order x ≡ false
        → IsUntraded E symbol w
        → Ends (IsUntraded E symbol) (λ _ _. ⊥) (match_loop E T order (x ∷ xs) w)
    unfolding match_loop
    match_loop-stuck order x xs w same goes h = elim (Bool-cases (leb order.size x.size)) [
      | inl entire ↦ rw (goes, entire) (fill_entire-stuck E L symbol T order x w same h)
      | inr part ↦
          rw (goes, part)
            (Ends-bind {Mid = λ _ _. ⊥} _ _ w (fill_partial-stuck E L symbol T order x w same h)
              λ _ _ f. absurd f)
    ]

    match_loop-same :
        (order : OrderBook) (xs : List OrderBook) (w : World E)
        → order.symbol ≡ symbol
        → IsUntraded E symbol w
        → StaysUntraded E symbol (match_loop E T order xs w)
    unfolding match_loop
    match_loop-same order [] w same h = Ends-pure tt w h
    match_loop-same order (x ∷ xs) w same h = elim (Bool-cases (T.stops order x)) [
      | inl stopped ↦ rw stopped (Ends-pure tt w h)
      | inr goes ↦
          Ends-mono (λ _ g. g) (λ _ _ f. absurd f) (match_loop-stuck order x xs w same goes h)
    ]

    pub match_loop-StaysUntraded :
        (order : OrderBook) (xs : List OrderBook) (w : World E)
        → IsUntraded E symbol w
        → StaysUntraded E symbol (match_loop E T order xs w)
    match_loop-StaysUntraded order xs w h = elim (Bool-cases (str_eq order.symbol symbol)) [
      | inl same ↦ match_loop-same order xs w ((eq_iff _ _).0 same) h
      | inr other ↦ match_loop-other order xs w other h
    ]
