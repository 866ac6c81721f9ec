-- ===== src/OrderBook/BookOrder.antt =====
-- Which resting orders `findOrders` keeps, and in which order the matching loops visit them.
use mathlib.Core.List.{Permᴰ}
use exchange_backend.Base.{
  ℕ, zero, suc, ◌≤◌, ◌≡◌, refl, sym, ap, subst, ◌⊎◌, inl, inr, true, List, [], ◌∷◌, ◌++◌, arith,
  some, Option-cases, String, reverse, Bool, false, not, str_eq, eq_iff,
}
use exchange_backend.Base.Lists.{
  All, All-map, Ordered, Ordered-left, Ordered-across, Ordered-reverse, Ordered-map, filter, length,
  take, drop, take-append-drop,
}
use exchange_backend.Base.Chosen.{Chosen, Chosen-of_filter, both}
use exchange_backend.Base.Action.{database_error, Result, ok, err, ◌>>=◌}
use exchange_backend.Repository.Order.{Direction, asc, desc, Sorted, may_precede}
use exchange_backend.OrderBook.Entity.{OrderBook}
use exchange_backend.OrderBook.Broadcast.{fill_order_book}
use exchange_backend.OrderBook.World.{Env, World, OrderBooks, IsLawfulEnv, order_rows}
use exchange_backend.OrderBook.Database.{find_orders, open_orders, is_open, by_price, price_column}

-- A price that is no worse for the other side: for a buy order a higher one, for a sell order a lower one.
abbrev pub NoLower : OrderBook → OrderBook → Type 0
NoLower x y = price_column y ≤ price_column x

abbrev pub NoHigher : OrderBook → OrderBook → Type 0
NoHigher x y = price_column x ≤ price_column y

-- In the loop, `x` before `y`: the price of `x` is no worse, and at one price `x` is no older.
abbrev pub Visited : (OrderBook → OrderBook → Type 0) → OrderBook → OrderBook → Type 0
Visited NoWorse x y = NoWorse x y × (price_column x ≡ price_column y → y.created_at ≤ x.created_at)

-- What a direction of the prices makes of it.
abbrev pub AsSorted : Direction → OrderBook → OrderBook → Type 0
AsSorted asc = NoLower
AsSorted desc = NoHigher

Visited-of_sorted :
    (d : Direction) (x y : OrderBook)
    → may_precede (by_price d) x y ≡ true
    → Visited (AsSorted d) y x
Visited-of_sorted asc x y h = (ground arith, λ e. ground arith)
Visited-of_sorted desc x y h = (ground arith, λ e. ground arith)

pub length-take {ℓ} : {A : Type ℓ} (n : ℕ) (xs : List A) → drop n xs ≡ [] ⊎ (length (take n xs) ≡ n)
length-take zero xs = inr refl
length-take (suc n) [] = inl refl
length-take (suc n) (x ∷ xs) = elim (length-take n xs) [ inl e ↦ inl e | inr e ↦ inr (ap suc e) ]

-- An order of the side and the symbol that is not filled.
abbrev pub IsOpen : String → String → OrderBook → Type 0
IsOpen side symbol o = (o.side ≡ side) × (o.symbol ≡ symbol) × (o.is_filled ≡ false)

unfilled : (b : Bool) → not b ≡ true → b ≡ false
unfilled true h = cc
unfilled false h = refl

IsOpen-of_condition :
    (side symbol : String) (o : OrderBook) → is_open side symbol o ≡ true → IsOpen side symbol o
IsOpen-of_condition side symbol o h =
    let (s, rest) = both {a = str_eq o.side side} h in
    let (t, f) = both {a = str_eq o.symbol symbol} rest in
    ((eq_iff o.side side).0 s, (eq_iff o.symbol symbol).0 t, unfilled o.is_filled f)

condition-of_IsOpen :
    (side symbol : String) (o : OrderBook) → IsOpen side symbol o → is_open side symbol o ≡ true
condition-of_IsOpen side symbol o (s, t, f) =
    rw ((eq_iff o.side side).1 s) rw ((eq_iff o.symbol symbol).1 t) rw f refl

-- The open orders of a side and a symbol are those found and those dropped; the loop visits those
-- found in this order; every one dropped has a price no worse than every one found; and an order is
-- dropped only where the limit is reached.
pub record Kept (side symbol : String) (limit : ℕ) (NoWorse : OrderBook → OrderBook → Type 0)
    (rows found : List OrderBook) : Type 0 where
  pub dropped : List OrderBook
  pub all_open : Chosen (IsOpen side symbol) rows (found ++ dropped)
  pub visits : Ordered (Visited NoWorse) (reverse found)
  pub dropped_no_worse : All (λ x. All (λ y. NoWorse y x) dropped) found
  pub full : (dropped ≡ []) ⊎ (length found ≡ limit)

module _ (E : Env) (L : IsLawfulEnv E) (side symbol : String) (limit : ℕ) (d : Direction)
    (w : World E) where
  Kept-of_Sorted :
      (sorted : List OrderBook)
      → Permᴰ (filter (is_open side symbol) (order_rows E w)) sorted
      → Sorted (by_price d) sorted
      → Kept side symbol limit (AsSorted d) (order_rows E w) (take limit sorted)
  Kept-of_Sorted sorted perm order =
      let split : Sorted (by_price d) (take limit sorted ++ drop limit sorted) =
        subst (Sorted (by_price d)) (sym (take-append-drop limit sorted)) order in
      record {
        dropped = drop limit sorted;
        all_open =
            Chosen-of_filter (is_open side symbol) (IsOpen-of_condition side symbol)
              (condition-of_IsOpen side symbol) (order_rows E w) _
              (subst (Permᴰ _) (sym (take-append-drop limit sorted)) perm);
        visits =
            Ordered-map _ (Visited (AsSorted d)) (λ x y h. Visited-of_sorted d y x h)
              (reverse (take limit sorted))
              (Ordered-reverse _ (take limit sorted) (Ordered-left _ (take limit sorted) _ split));
        dropped_no_worse =
            All-map _ _
              (λ x rest.
                All-map _ _ (λ y h. (Visited-of_sorted d x y h).0) (drop limit sorted) rest)
              (take limit sorted) (Ordered-across _ (take limit sorted) _ split);
        full = length-take limit sorted;
      }

  pub find_orders-Kept :
      {found : List OrderBook}
      → (E.orders.find (open_orders side symbol limit d) w.orders).0 ≡ some found
      → Kept side symbol limit (AsSorted d) (order_rows E w) found
  find_orders-Kept {found} e =
      let (sorted, perm, order, eq) =
        L.orders_lawful.find-some (open_orders side symbol limit d) w.orders found e in
      subst (Kept side symbol limit (AsSorted d) (order_rows E w)) (sym eq)
        (Kept-of_Sorted sorted perm order)

module _ (E : Env) (L : IsLawfulEnv E) where
  -- Over a lawful repository, after a successful `fillOrderBook` each side of the book holds open orders of
  -- the symbol: with those that it drops they are all of that side, and it drops some only where it holds
  -- 100. From the last to the first, as the loops visit them, the prices of the buy orders do not rise and
  -- those of the sell orders do not fall, and of two orders at one price the later one comes first. But no
  -- buy order dropped has a lower price than one in the book, and no sell order dropped a higher one: the
  -- best orders are those dropped.
  pub fill_order_book-Kept :
      (symbol : String) (w : World E)
      → (fill_order_book E symbol w).0 ≡ ok tt
      → let books : OrderBooks = (fill_order_book E symbol w).1.order_books in
        Kept "BUY" symbol 100 NoLower (order_rows E w) books.buy_orders
        × Kept "SELL" symbol 100 NoHigher (order_rows E w) books.sell_orders
  unfolding fill_order_book find_orders ◌>>=◌
  fill_order_book-Kept symbol w h =
      elim (Option-cases (E.orders.find (open_orders "BUY" symbol 100 asc) w.orders).0) [
        | inl b ↦ absurd (failed (rw b at h))
        | inr (buys, b) ↦
            let w1 : World E = record w {
              orders = (E.orders.find (open_orders "BUY" symbol 100 asc) w.orders).1;
            } in
            elim (Option-cases (E.orders.find (open_orders "SELL" symbol 100 desc) w1.orders).0) [
              | inl s ↦ absurd (failed (rw s at (rw b at h)))
              | inr (sells, s) ↦ rw b rw s (
                find_orders-Kept E L "BUY" symbol 100 asc w b,
                subst (λ rows. Kept "SELL" symbol 100 NoHigher rows sells)
                    (L.orders_lawful.rows-find (open_orders "BUY" symbol 100 asc) w.orders)
                    (find_orders-Kept E L "SELL" symbol 100 desc w1 s),
              )
            ]
      ]
    where
      failed : ◌≡◌ {A = Result (Unit {0})} (err database_error) (ok tt) → ⊥
      failed p = cc
