-- ===== src/OrderBook/Executions.antt =====
-- What matching is to do, without the tables: which resting orders an incoming order of some size
-- trades with, and for how much; the deals that these are; and what they leave of the orders.
use exchange_backend.Base.{
  ℕ, ◌-◌, ◌*◌, ◌≤◌, ◌≡◌, ◌≢◌, refl, String, Bool, false, ◌||◌, Option, List, [], ◌∷◌, map, arith,
  leb, ◌==◌, min, if◌then◌else◌, number, Bool-cases, inl, inr,
}
use exchange_backend.Base.Lists.{All, sum_by}
use exchange_backend.OrderBook.Entity.{OrderBook, Trade}

pub record Execution : Type 0 where
  pub resting : OrderBook
  pub quantity : ℕ

-- The orders in turn, until one stops the matching or the size is used up.
unfoldable pub executions : (OrderBook → Bool) → ℕ → List OrderBook → List Execution
executions stops size [] = []
executions stops size (x ∷ xs) =
    let rest = executions stops (size - x.size) xs in
    if stops x
    then []
    else if leb size x.size
    then record { resting = x; quantity = size } ∷ []
    else record { resting = x; quantity = x.size } ∷ rest

-- The orders that stand before the first one that stops the matching.
abbrev pub eligible : (OrderBook → Bool) → List OrderBook → List OrderBook
eligible stops [] = []
eligible stops (x ∷ xs) = let rest = eligible stops xs in if stops x then [] else x ∷ rest

-- What a trade records of who gave what to whom.
pub record Deal : Type 0 where
  pub buyer_id : ℕ
  pub seller_id : ℕ
  pub price : Option ℕ
  pub size : ℕ
  pub volume : ℕ
  pub symbol : String

abbrev pub deal : Trade → Deal
deal t = record {
  buyer_id = t.buyer_id;
  seller_id = t.seller_id;
  price = t.price;
  size = t.size;
  volume = t.volume;
  symbol = t.symbol;
}

-- The deal of an execution, at the price of the resting order.
abbrev pub deal_of : Bool → ℕ → String → Execution → Deal
deal_of buys uid symbol e = record {
  buyer_id = if buys then uid else e.resting.uid;
  seller_id = if buys then e.resting.uid else uid;
  price = e.resting.price;
  size = e.quantity;
  volume = number e.resting.price * e.quantity;
  symbol = symbol;
}

-- What the rows of the orders say of their state.
pub record Standing : Type 0 where
  pub id : ℕ
  pub size : ℕ
  pub is_filled : Bool

abbrev pub standing : OrderBook → Standing
standing r = record { id = r.id; size = r.size; is_filled = r.is_filled }

abbrev posted : ℕ → ℕ → Standing → Standing
posted id left s =
    if s.id == id then record s { size = left; is_filled = left == 0 || s.is_filled } else s

-- The order `id` has `left` to go, and is filled if that is nothing.
abbrev pub post : ℕ → ℕ → List Standing → List Standing
post id left = map (posted id left)

-- Every execution takes its quantity off the resting order and off the incoming one.
abbrev pub settle : ℕ → ℕ → List Execution → List Standing → List Standing
settle id size [] rows = rows
settle id size (e ∷ es) rows =
    settle id (size - e.quantity) es
      (post id (size - e.quantity) (post e.resting.id (e.resting.size - e.quantity) rows))

posted_comm :
    (a b m n : ℕ) (s : Standing) → a ≢ b → posted a m (posted b n s) ≡ posted b n (posted a m s)
posted_comm a b m n s h = ground arith

pub post_comm :
    (a b m n : ℕ) (rows : List Standing)
    → a ≢ b
    → post a m (post b n rows) ≡ post b n (post a m rows)
post_comm a b m n [] h = refl
post_comm a b m n (s ∷ rows) h = cc (posted_comm a b m n s h, post_comm a b m n rows h)

-- Matching trades all that it can: the size of the order, or all that is eligible if that is less.
pub sum-executions :
    (stops : OrderBook → Bool) (size : ℕ) (xs : List OrderBook)
    → sum_by (λ e. e.quantity) (executions stops size xs)
      ≡ min size (sum_by (λ x. x.size) (eligible stops xs))
unfolding executions
sum-executions stops size [] = omega arith
sum-executions stops size (x ∷ xs) = elim (Bool-cases (stops x)) [
  | inl stopped ↦ rw (stopped) (omega arith)
  | inr goes ↦ elim (Bool-cases (leb size x.size)) [
    | inl entire ↦ rw (goes, entire) (ground arith)
    | inr part ↦ rw (goes, part) (ground (arith, sum-executions stops (size - x.size) xs))
  ]
]

-- Every execution is with an order that does not stop the matching, for no more than its size.
pub executions-All :
    (stops : OrderBook → Bool) (size : ℕ) (xs : List OrderBook)
    → All
        (λ e. (stops e.resting ≡ false) × (e.quantity ≤ e.resting.size))
        (executions stops size xs)
unfolding executions
executions-All stops size [] = tt
executions-All stops size (x ∷ xs) = elim (Bool-cases (stops x)) [
  | inl stopped ↦ rw (stopped) tt
  | inr goes ↦ elim (Bool-cases (leb size x.size)) [
    | inl entire ↦ rw (goes, entire) ((goes, ground arith), tt)
    | inr part ↦ rw (goes, part) ((goes, ground arith), executions-All stops (size - x.size) xs)
  ]
]
