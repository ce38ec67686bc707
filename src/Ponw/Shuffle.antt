-- ===== src/Ponw/Shuffle.antt =====
-- What the generators of src/consensus/ponw_engine.cpp share: the Fisher-Yates shuffle, and the
-- draw of two vertices.
pub mod Arrangement
use npchain.Base.{
  ℕ, zero, suc, ◌+◌, ◌%◌, ◌^◌, Option, some, List, get_or, set, tabulate, min, max, ◌>>=◌,
}
use npchain.Crypto.Rng.{Rng, next_bounded}

-- std::swap(xs[i], xs[j])
unfoldable pub swap : List ℕ → ℕ → ℕ → List ℕ
swap xs i j = set (set xs i (get_or xs j 0)) j (get_or xs i 0)

-- std::iota from 0
unfoldable pub iota : ℕ → List ℕ
iota n = tabulate n 0 (λ i. i)

-- for (i = last; i > 0; --i); a draw below i + 1 fits in uint32_t.
unfoldable pub shuffle : ℕ → ℕ → List ℕ → Rng → Option (List ℕ × Rng)
shuffle fuel zero xs rng = some (xs, rng)
shuffle fuel (suc i) xs rng = do
  (j, rng1) ← next_bounded fuel (i + 2) rng
  shuffle fuel i (swap xs (suc i) j) rng1

-- Two vertices below `n`, the smaller one first.
unfoldable pub draw_edge : ℕ → ℕ → Rng → Option ((ℕ × ℕ) × Rng)
draw_edge fuel n rng = do
  (a, rng1) ← next_bounded fuel n rng
  (b, rng2) ← next_bounded fuel n rng1
  some ((min a b, max a b), rng2)
