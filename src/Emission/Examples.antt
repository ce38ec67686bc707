-- ===== src/Emission/Examples.antt =====
-- The theorems about the emission at concrete heights.
use npchain.Base.{◌≡◌, min, arith}
use npchain.Emission.{uint64_max, cumulative_supply}
use npchain.Emission.Supply.{emitted, cumulative_supply-emitted}

cumulative_supply-emitted_example : cumulative_supply 1_000_000 ≡ min (emitted 1_000_000) uint64_max
cumulative_supply-emitted_example = cumulative_supply-emitted 1_000_000 (omega arith)
