-- ===== src/OrderBook/Settlement.antt =====
-- The matching loop does what `executions` says: the trades that it records and the orders that it
-- updates are those of the executions.
use mathlib.Core.Path.{fun_ext}
use mathlib.Core.List.{append_assoc, append-nil, map-append}
use exchange_backend.Base.{
  ℕ, ◌-◌, ◌<◌, ◌≡◌, ◌≢◌, refl, sym, ◌∙◌, ap, ap₂, subst, List, [], ◌∷◌, ◌++◌, map, arith, leb, Bool,
  true, false, Bool-cases, inl, inr, leb→gt,
}
use exchange_backend.Base.Lists.{All}
use exchange_backend.Base.Action.{Ends, Ends-bind, Ends-mono}
use exchange_backend.OrderBook.Entity.{OrderBook, Trade}
use exchange_backend.OrderBook.World.{Env, World, IsLawfulEnv, trade_rows, new_date}
use exchange_backend.OrderBook.Matching.{
  Terms, buy_terms, sell_terms, market_buy_terms, market_sell_terms, remainder, fill_entire,
  fill_partial, match_loop,
}
use exchange_backend.OrderBook.Executions.{
  Execution, executions, standing, Deal, deal, deal_of, post, post_comm, settle,
}
use exchange_backend.OrderBook.Frames.{Anything, Keeps-done, new_date-Keeps}
use exchange_backend.OrderBook.Steps.{
  standings, priced, update_order-filled, update_order-reduced, settle_resting-Updated,
  save_trade-Recorded,
}

-- The parts of a routine fit together: its trades are new rows that record the deal of the
-- execution, with the incoming order as the buyer or the seller, and a partial fill does not move
-- the point at which it stops.
pub record IsFair (T : Terms) (buys : Bool) : Type 0 where
  pub entire_new : (o x : OrderBook) (q d : ℕ) → (T.entire_trade o x q d).id ≡ 0
  pub partial_new : (o x : OrderBook) (q d : ℕ) → (T.partial_trade o x q d).id ≡ 0
  pub entire_deal :
      (o x : OrderBook) (q d : ℕ)
      → deal (priced (T.entire_trade o x q d))
        ≡ deal_of buys o.uid o.symbol (record { resting = x; quantity = q })
  pub partial_deal :
      (o x : OrderBook) (q d : ℕ)
      → deal (priced (T.partial_trade o x q d))
        ≡ deal_of buys o.uid o.symbol (record { resting = x; quantity = q })
  pub steady : (o x y : OrderBook) → T.stops (remainder T o x) y ≡ T.stops o y

pub buy_terms-IsFair : IsFair buy_terms true
buy_terms-IsFair = record {
  entire_new = λ o x q d. refl;
  partial_new = λ o x q d. refl;
  entire_deal = λ o x q d. refl;
  partial_deal = λ o x q d. refl;
  steady = λ o x y. refl;
}

pub sell_terms-IsFair : IsFair sell_terms false
sell_terms-IsFair = record {
  entire_new = λ o x q d. refl;
  partial_new = λ o x q d. refl;
  entire_deal = λ o x q d. refl;
  partial_deal = λ o x q d. refl;
  steady = λ o x y. refl;
}

pub market_buy_terms-IsFair : IsFair market_buy_terms true
market_buy_terms-IsFair = record {
  entire_new = λ o x q d. refl;
  partial_new = λ o x q d. refl;
  entire_deal = λ o x q d. refl;
  partial_deal = λ o x q d. refl;
  steady = λ o x y. refl;
}

pub market_sell_terms-IsFair : IsFair market_sell_terms false
market_sell_terms-IsFair = record {
  entire_new = λ o x q d. refl;
  partial_new = λ o x q d. refl;
  entire_deal = λ o x q d. refl;
  partial_deal = λ o x q d. refl;
  steady = λ o x y. refl;
}

-- From `w` to `t`, exactly these executions of the order have been recorded and settled.
pub record Settled (E : Env) (buys : Bool) (order : OrderBook) (es : List Execution) (w t : World E)
    : Type 0 where
  pub new : List Trade
  pub recorded : trade_rows E t ≡ trade_rows E w ++ new
  pub deals : map deal new ≡ map (deal_of buys order.uid order.symbol) es
  pub left : standings E t ≡ settle order.id order.size es (standings E w)

module _ (E : Env) (L : IsLawfulEnv E) (T : Terms) (buys : Bool) (F : IsFair T buys) where
  fill_entire-Settled :
      (order x : OrderBook) (w : World E)
      → order.id ≢ x.id
      → Ends Anything
          (λ _. Settled E buys order (record { resting = x; quantity = order.size } ∷ []) w)
          (fill_entire E T order x w)
  unfolding fill_entire
  fill_entire-Settled order x w other =
      Ends-bind _ _ w (Keeps-done (new_date E) w new_date-Keeps) λ date w₁ k₁.
        Ends-bind _ _ w₁ (update_order-filled E L order.symbol order.id date _ w₁) λ _ w₂ k₂.
          Ends-bind _ _ w₂ (Keeps-done (new_date E) w₂ new_date-Keeps) λ traded w₃ k₃.
            Ends-bind _ _ w₃
              (save_trade-Recorded E L (T.entire_trade order x order.size traded) w₃
                (F.entire_new order x order.size traded))
              λ _ w₄ k₄.
                Ends-mono (λ _ _. tt)
                  (λ _ t k₅. record {
                    new = k₄.1.0 ∷ [];
                    recorded = k₅.0 ∙ k₄.1.1 ∙ ap (λ l. l ++ (k₄.1.0 ∷ [])) (k₃.1 ∙ k₂.0 ∙ k₁.1);
                    deals =
                        ap (λ (d : Deal). d ∷ [])
                          (k₄.1.2 ∙ F.entire_deal order x order.size traded);
                    left =
                        k₅.1
                        ∙ ap (post x.id (x.size - order.size)) (
                            k₄.0
                            ∙ ap (map standing) k₃.0
                            ∙ k₂.1
                            ∙ ap (post order.id 0) (ap (map standing) k₁.0))
                        ∙ post_comm x.id order.id _ _ _ (λ e. other (sym e))
                        ∙ ap
                            (λ n. post order.id n (post x.id (x.size - order.size) (standings E w)))
                            (omega arith);
                  })
                  (settle_resting-Updated E L order.symbol x (x.size - order.size) _ w₄)

  fill_partial-Settled :
      (order x : OrderBook) (w : World E)
      → x.size < order.size
      → Ends Anything
          (λ order' t.
            (order' ≡ remainder T order x)
            × Settled E buys order (record { resting = x; quantity = x.size } ∷ []) w t)
          (fill_partial E T order x w)
  unfolding fill_partial
  fill_partial-Settled order x w less =
      Ends-bind _ _ w (Keeps-done (new_date E) w new_date-Keeps) λ date w₁ k₁.
        Ends-bind _ _ w₁ (update_order-filled E L order.symbol x.id date _ w₁) λ _ w₂ k₂.
          Ends-bind _ _ w₂ (Keeps-done (new_date E) w₂ new_date-Keeps) λ traded w₃ k₃.
            Ends-bind _ _ w₃
              (save_trade-Recorded E L (T.partial_trade order x x.size traded) w₃
                (F.partial_new order x x.size traded))
              λ _ w₄ k₄.
                Ends-bind _ _ w₄
                  (update_order-reduced E L order.symbol order.id (order.size - x.size) _ w₄
                    (omega arith))
                  λ _ t k₅. record {
                    ends = (
                      refl,
                      record {
                        new = k₄.1.0 ∷ [];
                        recorded =
                            k₅.0 ∙ k₄.1.1 ∙ ap (λ l. l ++ (k₄.1.0 ∷ [])) (k₃.1 ∙ k₂.0 ∙ k₁.1);
                        deals =
                            ap (λ (d : Deal). d ∷ [])
                              (k₄.1.2 ∙ F.partial_deal order x x.size traded);
                        left =
                            k₅.1
                            ∙ ap (post order.id (order.size - x.size)) (
                                k₄.0
                                ∙ ap (map standing) k₃.0
                                ∙ k₂.1
                                ∙ ap₂ (post x.id) (omega arith) (ap (map standing) k₁.0));
                      },
                    );
                  }

  -- The executions after a partial fill are those of the remainder.
  Settled-append :
      (order x : OrderBook) (es : List Execution) (w t v : World E)
      → Settled E buys order (record { resting = x; quantity = x.size } ∷ []) w t
      → Settled E buys (remainder T order x) es t v
      → Settled E buys order (record { resting = x; quantity = x.size } ∷ es) w v
  Settled-append order x es w t v a b = record {
    new = a.new ++ b.new;
    recorded =
        b.recorded ∙ ap (λ l. l ++ b.new) a.recorded ∙ append_assoc (trade_rows E w) a.new b.new;
    deals = map-append deal a.new b.new ∙ ap₂ (λ k l. k ++ l) a.deals b.deals;
    left = b.left ∙ ap (settle order.id (order.size - x.size) es) a.left;
  }

  Settled-nothing : (order : OrderBook) (w : World E) → Settled E buys order [] w w
  Settled-nothing order w = record {
    new = [];
    recorded = sym (append-nil _);
    deals = refl;
    left = refl;
  }

  -- When a matching loop ends without an exception, exactly the executions have been settled.
  pub match_loop-Settled :
      (order : OrderBook) (xs : List OrderBook) (w : World E)
      → All (λ x. order.id ≢ x.id) xs
      → Ends Anything
          (λ _. Settled E buys order (executions (T.stops order) order.size xs) w)
          (match_loop E T order xs w)
  unfolding match_loop executions
  match_loop-Settled order [] w others = record { ends = Settled-nothing order w }
  match_loop-Settled order (x ∷ xs) w (other, others) = elim (Bool-cases (T.stops order x)) [
    | inl stopped ↦ rw stopped (record { ends = Settled-nothing order w })
    | inr goes ↦ elim (Bool-cases (leb order.size x.size)) [
      | inl entire ↦ rw (goes, entire) (fill_entire-Settled order x w other)
      | inr part ↦
          rw (goes, part)
            (Ends-bind _ _ w (fill_partial-Settled order x w (leb→gt _ _ part)) λ order' t done.
              rw (done.0) (
                Ends-mono (λ _ _. tt)
                  (λ _ v rest. Settled-append order x _ w t v done.1 (
                    subst
                      (λ stops.
                        Settled E buys (remainder T order x)
                          (executions stops (order.size - x.size) xs) t v)
                      (fun_ext (F.steady order x)) rest))
                  (match_loop-Settled (remainder T order x) xs t others)))
    ]
  ]
