-- ===== src/Ponw/Adjuster.antt =====
-- `DifficultyAdjuster` of src/consensus/ponw_engine.cpp.
use npchain.Base.{
  ℕ, ◌+◌, ◌-◌, ◌≤◌, arith, ◌%◌, ◌^◌, min, max, List, length, get_or, ltb, if◌then◌else◌, Floats,
  clamp,
}

abbrev pub difficulty_window : ℕ
difficulty_window = 144

abbrev pub genesis_difficulty : ℕ
genesis_difficulty = 1

module _ (fl : Floats) where
  open fl use {of_uint, literal, mul, div, at_most, to_uint}

  unfoldable pub calculate_next_difficulty : ℕ → List ℕ → ℕ → ℕ
  calculate_next_difficulty current_difficulty recent_timestamps target_block_time =
      let size = length recent_timestamps in
      let window = min size difficulty_window in
      let time_span =
        (get_or recent_timestamps (size - 1) 0
          + 2 ^ 64
          - get_or recent_timestamps (size - window) 0)
        % 2 ^ 64 in
      let actual_avg = div (of_uint time_span) (of_uint (window - 1)) in
      let ratio =
        clamp fl (div (of_uint target_block_time) actual_avg) (div (literal 10 1) (literal 125 2))
          (literal 125 2) in
      let new_diff = to_uint (mul (of_uint current_difficulty) ratio) % 2 ^ 64 in
      if ltb size 2
      then current_difficulty
      else if at_most actual_avg (literal 0 0)
      then current_difficulty
      else max new_diff 1

  -- The difficulty never falls to 0.
  pub calculate_next_difficulty_positive :
      (current : ℕ) (timestamps : List ℕ) (target : ℕ)
      → 1 ≤ current
      → 1 ≤ calculate_next_difficulty current timestamps target
  unfolding calculate_next_difficulty
  calculate_next_difficulty_positive current timestamps target pos = ground arith
