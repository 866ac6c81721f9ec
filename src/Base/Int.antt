-- ===== src/Base/Int.antt =====
-- Integers over the native numbers: differences of prices.
use Prim.Native.Nat.{ℕ, suc, ◌+◌, ◌-◌}
use mathlib.Core.Path.{◌≡◌}
use native.Mathlib.Omega.{arith}
use mathlib.Core.Bool.{Bool, true, false}
use exchange_backend.Base.{leb, if◌then◌else◌}

-- `negsuc n` is -(n + 1).
pub data ℤ : Type 0 where
  pos : ℕ → ℤ
  negsuc : ℕ → ℤ

abbrev pub sub_ℕ : ℕ → ℕ → ℤ
sub_ℕ a b = if leb b a then pos (a - b) else negsuc (b - a - 1)

abbrev pub is_positive : ℤ → Bool
is_positive (pos (suc n)) = true
is_positive _ = false

-- What `increment` and `decrement` make of a balance.
abbrev pub add_amount : ℤ → ℕ → ℤ
add_amount (pos n) a = pos (n + a)
add_amount (negsuc n) a = sub_ℕ a (suc n)

abbrev pub sub_amount : ℤ → ℕ → ℤ
sub_amount (pos n) a = sub_ℕ n a
sub_amount (negsuc n) a = negsuc (n + a)

-- The amount is no more than the balance.
abbrev pub covers : ℤ → ℕ → Bool
covers (pos n) a = leb a n
covers (negsuc n) a = false

pub add_amount-sub_amount : (b : ℤ) (a : ℕ) → add_amount (sub_amount b a) a ≡ b
add_amount-sub_amount (pos n) a = ground arith
add_amount-sub_amount (negsuc n) a = ground arith
