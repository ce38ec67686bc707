-- ===== src/Base/Loops.antt =====
-- Counted loops and arrays filled by index.
use Prim.Native.Nat.{ℕ, zero, suc, ◌+◌}
use mathlib.Core.Path.{◌≡◌, refl, ap}
use mathlib.Core.List.{List, [], ◌∷◌}
use npchain.Base.Lists.{length}

-- for (k = i; k < i + rounds; k++) s = body k s
unfoldable pub for_range {ℓ} : {State : Type ℓ} → ℕ → ℕ → (ℕ → State → State) → State → State
for_range zero k body s = s
for_range (suc rounds) k body s = for_range rounds (k + 1) body (body k s)

-- An array of `n` places filled with `f i`, `f (i + 1)` and so on.
unfoldable pub tabulate {ℓ} : {A : Type ℓ} → ℕ → ℕ → (ℕ → A) → List A
tabulate zero i f = []
tabulate (suc n) i f = f i ∷ tabulate n (i + 1) f

pub length-tabulate {ℓ} : {A : Type ℓ} (n i : ℕ) (f : ℕ → A) → length (tabulate n i f) ≡ n
unfolding tabulate
length-tabulate zero i f = refl
length-tabulate (suc n) i f = ap suc (length-tabulate n (i + 1) f)
