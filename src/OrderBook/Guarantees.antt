-- ===== src/OrderBook/Guarantees.antt =====
-- What the settled executions mean for the trader: how much is traded, at what price, and what is
-- left of the order.
use exchange_backend.Base.{
  ℕ, ◌-◌, ◌≡◌, ◌≢◌, sym, ◌∙◌, ap, subst, Bool, false, List, [], ◌∷◌, ◌++◌, min, arith,
}
use exchange_backend.Base.Lists.{All, All-map, All-of_map, map-All, sum_by, sum_by-map}
use exchange_backend.OrderBook.Entity.{OrderBook, Trade}
use exchange_backend.OrderBook.World.{Env, World, trade_rows}
use exchange_backend.OrderBook.Executions.{
  Execution, executions, eligible, Standing, Deal, deal, deal_of, post, settle, sum-executions,
  executions-All,
}
use exchange_backend.OrderBook.Settlement.{Settled}

-- The new trades have this total size, and each of them has the property.
pub record Traded (E : Env) (total : ℕ) (P : Trade → Type 0) (w t : World E) : Type 0 where
  pub new : List Trade
  pub recorded : trade_rows E t ≡ trade_rows E w ++ new
  pub amounts : sum_by (λ x. x.size) new ≡ total
  pub each : All P new

module _ {E : Env} (buys : Bool) (order : OrderBook) (stops : OrderBook → Bool)
    (book : List OrderBook) (P : Deal → Type 0) where
  pub Settled-Traded :
      (w t : World E)
      → ((e : Execution) → stops e.resting ≡ false → P (deal_of buys order.uid order.symbol e))
      → Settled E buys order (executions stops order.size book) w t
      → Traded E (min order.size (sum_by (λ x. x.size) (eligible stops book))) (λ x. P (deal x)) w t
  Settled-Traded w t good s = record {
    new = s.new;
    recorded = s.recorded;
    amounts =
        sym (sum_by-map (λ d. d.size) deal s.new)
        ∙ ap (sum_by (λ d. d.size)) s.deals
        ∙ sum_by-map (λ d. d.size) (deal_of buys order.uid order.symbol)
            (executions stops order.size book)
        ∙ sum-executions stops order.size book;
    each = map-All P deal s.new (
        subst (All P) (sym s.deals) (
          All-of_map P (deal_of buys order.uid order.symbol) (executions stops order.size book) (
            All-map _ _ (λ e h. good e h.0) (executions stops order.size book)
              (executions-All stops order.size book))));
  }

-- The rows of this order have this size.
abbrev pub HasSize : ℕ → ℕ → List Standing → Type 0
HasSize id size = All (λ s. s.id ≡ id → s.size ≡ size)

post-HasSize_self :
    (id size left : ℕ) (rows : List Standing)
    → HasSize id size rows
    → HasSize id left (post id left rows)
post-HasSize_self id size left [] h = tt
post-HasSize_self id size left (s ∷ rows) h =
    ((λ e. ground arith), post-HasSize_self id size left rows h.1)

post-HasSize_other :
    (id other size left : ℕ) (rows : List Standing)
    → id ≢ other
    → HasSize id size rows
    → HasSize id size (post other left rows)
post-HasSize_other id other size left [] ne h = tt
post-HasSize_other id other size left (s ∷ rows) ne h =
    ((λ e. ground (arith, h.0)), post-HasSize_other id other size left rows ne h.1)

pub settle-HasSize :
    (id size : ℕ) (es : List Execution) (rows : List Standing)
    → All (λ e. id ≢ e.resting.id) es
    → HasSize id size rows
    → HasSize id (size - sum_by (λ e. e.quantity) es) (settle id size es rows)
settle-HasSize id size [] rows others h = subst (λ n. HasSize id n rows) (omega arith) h
settle-HasSize id size (e ∷ es) rows others h =
    subst (λ n. HasSize id n (settle id size (e ∷ es) rows)) (omega arith)
      (settle-HasSize id (size - e.quantity) es _ others.1 (
        post-HasSize_self id size (size - e.quantity) _
          (post-HasSize_other id e.resting.id size _ rows others.0 h)))
