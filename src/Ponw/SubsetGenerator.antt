-- ===== src/Ponw/SubsetGenerator.antt =====
-- `InstanceGenerator::generate_subset_sum` of src/consensus/ponw_engine.cpp.
pub mod Planted
use npchain.Base.{
  ℕ, zero, suc, ◌+◌, ◌-◌, ◌/◌, ◌%◌, ◌^◌, min, Option, some, List, [], ◌∷◌, get_or, take, ltb,
  if◌then◌else◌, Floats, ◌>>=◌,
}
use npchain.Crypto.Rng.{Rng, next_bounded}
use npchain.Ponw.Problem.{ProblemType, difficulty_to_size}
use npchain.Ponw.Shuffle.{iota, shuffle}
use npchain.Ponw.SubsetSum.{SubsetSumInstance}

-- Positive values, below 2 ^ 63.
unfoldable pub draw_elements : ℕ → ℕ → ℕ → Rng → Option (List ℕ × Rng)
draw_elements fuel zero max_val rng = some ([], rng)
draw_elements fuel (suc n) max_val rng = do
  (value, rng1) ← next_bounded fuel max_val rng
  (values, rng2) ← draw_elements fuel n max_val rng1
  some ((value + 1) ∷ values, rng2)

-- std::clamp(subset_size, 1, set_size), of a positive set_size.
abbrev pub clamp_size : ℕ → ℕ → ℕ
clamp_size set_size subset_size =
    if ltb subset_size 1 then 1 else if ltb set_size subset_size then set_size else subset_size

-- The sum of the elements at the indices, from `sum` on, in uint64_t.
unfoldable pub planted_sum : List ℕ → ℕ → List ℕ → ℕ
planted_sum elements sum [] = sum
planted_sum elements sum (i ∷ is) = planted_sum elements ((sum + get_or elements i 0) % 2 ^ 64) is

-- The instance with its planted subset, which the source forgets. Of a set of no elements, which
-- no difficulty asks for, the source shuffles out of bounds.
unfoldable pub plant_subset : ℕ → Rng → ℕ → ℕ → Option (SubsetSumInstance × List ℕ)
plant_subset fuel rng set_size target_bits = do
  (elements, rng1) ← draw_elements fuel set_size (2 ^ min target_bits 62) rng
  (drawn, rng2) ← next_bounded fuel (set_size / 2) rng1
  let subset_size = clamp_size set_size ((drawn + set_size / 4) % 2 ^ 32)
  (indices, rng3) ← shuffle fuel (set_size - 1) (iota set_size) rng2
  let planted = take subset_size indices
  some (
    record {
      elements = elements;
      target = planted_sum elements 0 planted;
      required_subset_size = 0;
    },
    planted,
  )

module _ (fl : Floats) (fuel : ℕ) where
  unfoldable pub generate_subset_sum : Rng → ℕ → Option SubsetSumInstance
  generate_subset_sum rng difficulty = do
    let (set_size, target_bits) = difficulty_to_size fl ProblemType.subset_sum difficulty
    (inst, planted) ← plant_subset fuel rng set_size target_bits
    some inst
