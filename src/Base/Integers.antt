-- ===== src/Base/Integers.antt =====
-- Signed integers over the native numbers, as far as a literal of a clause needs them.
use Prim.Native.Nat.{ℕ, suc, ◌≤◌, ◌^◌}
use mathlib.Core.Bool.{Bool, true, false}

-- `negsuc n` is -(n + 1).
pub data ℤ : Type 0 where
  pos : ℕ → ℤ
  negsuc : ℕ → ℤ

abbrev pub abs : ℤ → ℕ
abs (pos n) = n
abs (negsuc n) = suc n

abbrev pub is_negative : ℤ → Bool
is_negative (pos n) = false
is_negative (negsuc n) = true

-- An int32_t other than its least value, of which `std::abs` is undefined.
abbrev pub IsInt32 : ℤ → Type 0
IsInt32 i = suc (abs i) ≤ 2 ^ 31
