-- ===== src/Emission/Supply.antt =====
-- `cumulative_supply` against the sum of the rewards of `CoinbaseTx::calculate_reward`.
use npchain.Base.{ℕ, zero, suc, ◌+◌, ◌-◌, ◌*◌, ◌/◌, ◌%◌, ◌^◌, ◌<◌, ◌≡◌, min, arith}
use npchain.Emission.{
  blocks_per_year, annual_emission_cap, block_reward, cfrag_start, uint64_max, calculate_reward,
  supply_u128, cumulative_supply,
}

-- The rewards of the blocks below a height, added up.
abbrev pub emitted : ℕ → ℕ
emitted zero = 0
emitted (suc h) = emitted h + calculate_reward h

-- The closed form, with no wrap.
abbrev closed_form : ℕ → ℕ
closed_form h =
    h / blocks_per_year * annual_emission_cap
    + h % blocks_per_year * block_reward
    + (h % blocks_per_year - cfrag_start)

closed_form_step : (h : ℕ) → closed_form (suc h) ≡ closed_form h + calculate_reward h
unfolding calculate_reward
closed_form_step h = ground arith

pub emitted-closed_form : (h : ℕ) → emitted h ≡ closed_form h
emitted-closed_form zero = omega arith
emitted-closed_form (suc h) = omega (arith, emitted-closed_form h, closed_form_step h)

supply_u128-closed_form :
    (h : ℕ) → h < 2 ^ 64 → supply_u128 (h / blocks_per_year) (h % blocks_per_year) ≡ closed_form h
unfolding supply_u128
supply_u128-closed_form h b = ground arith

-- At every 64-bit height `cumulative_supply` is the sum of the rewards of all the blocks below it,
-- cut off at the largest uint64.
pub cumulative_supply-emitted :
    (h : ℕ) → h < 2 ^ 64 → cumulative_supply h ≡ min (emitted h) uint64_max
unfolding cumulative_supply
cumulative_supply-emitted h b = ground (arith, supply_u128-closed_form h, emitted-closed_form h)

-- A whole number of years emits the annual cap times that number, to the unit.
pub emitted-years : (y : ℕ) → emitted (y * blocks_per_year) ≡ y * annual_emission_cap
emitted-years y = omega (arith, emitted-closed_form (y * blocks_per_year))
