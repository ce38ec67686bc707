-- ===== src/Emission.antt =====
-- include/core/transaction.hpp, class CoinbaseTx, and the emission constants of
-- include/utils/types.hpp.
pub mod Supply
mod Examples
use npchain.Base.{ℕ, ◌+◌, ◌-◌, ◌*◌, ◌/◌, ◌%◌, ◌^◌, ltb, leb, ◌==◌, if◌then◌else◌}

abbrev pub blocks_per_year : ℕ
blocks_per_year = 525_600

abbrev pub base_units_per_cert : ℕ
base_units_per_cert = 1_000_000

abbrev pub annual_emission_cap : ℕ
annual_emission_cap = 100_000_000_000 * base_units_per_cert

abbrev pub block_reward : ℕ
block_reward = annual_emission_cap / blocks_per_year

abbrev pub complexity_frags : ℕ
complexity_frags = annual_emission_cap % blocks_per_year

abbrev pub cfrag_start : ℕ
cfrag_start = blocks_per_year - complexity_frags

abbrev pub uint64_max : ℕ
uint64_max = 2 ^ 64 - 1

abbrev pub cap_certs : ℕ
cap_certs = annual_emission_cap / base_units_per_cert

unfoldable pub calculate_reward : ℕ → ℕ
calculate_reward height =
    let year_position = height % blocks_per_year in
    if leb cfrag_start year_position then (block_reward + 1) % 2 ^ 64 else block_reward

-- The additions in `__uint128_t`, each with its wrap.
supply_u128 : ℕ → ℕ → ℕ
supply_u128 full_years remaining =
    let whole = full_years * annual_emission_cap % 2 ^ 128 in
    let partial = (whole + remaining * block_reward % 2 ^ 128) % 2 ^ 128 in
    if ltb cfrag_start remaining then (partial + (remaining - cfrag_start)) % 2 ^ 128 else partial

unfoldable pub cumulative_supply : ℕ → ℕ
unfolding supply_u128
cumulative_supply height =
    let supply = supply_u128 (height / blocks_per_year) (height % blocks_per_year) in
    if ltb uint64_max supply then uint64_max else supply

unfoldable pub cumulative_supply_certs : ℕ → ℕ
cumulative_supply_certs height = height / blocks_per_year * cap_certs % 2 ^ 64

unfoldable pub inflation_rate_millipct : ℕ → ℕ
inflation_rate_millipct height =
    let supply_certs = cumulative_supply_certs height in
    if supply_certs == 0 then 0 else cap_certs * 100_000 % 2 ^ 64 / supply_certs
