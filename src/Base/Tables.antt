-- ===== src/Base/Tables.antt =====
-- Facts about bytes and their bits, by evaluation at each value.
use Prim.Native.Nat.{ℕ, zero, suc, ◌<◌}
use mathlib.Core.Path.{◌≡◌}
use mathlib.Core.Bool.{Bool, true, ◌&&◌}
use native.Mathlib.Omega.{arith}

unfoldable pub all_below : ℕ → (ℕ → Bool) → Bool
all_below zero p = true
all_below (suc n) p = let rest = all_below n p in p n && rest

pub all_below_sound :
    (bound : ℕ) (holds : ℕ → Bool) (k : ℕ)
    → all_below bound holds ≡ true
    → k < bound
    → holds k ≡ true
unfolding all_below
all_below_sound zero holds k table below = elim below [ ]
all_below_sound (suc bound) holds k table below = ground (arith, all_below_sound bound holds k)

unfoldable pub all_below2 : ℕ → ℕ → (ℕ → ℕ → Bool) → Bool
all_below2 m n p = all_below m (λ x. all_below n (p x))

pub all_below2_sound :
    (m n : ℕ) (p : ℕ → ℕ → Bool) (x y : ℕ) → all_below2 m n p ≡ true → x < m → y < n → p x y ≡ true
unfolding all_below2
all_below2_sound m n p x y h hx hy =
    all_below_sound n (p x) y (all_below_sound m (λ x'. all_below n (p x')) x h hx) hy
