-- ===== src/Testnet/Instance.antt =====
-- `generate_instance` of src/testnet_node.cpp. Its `SATInstance` and `verify` are those of the
-- engine but for the field `k`, which nothing reads.
pub mod Range
use npchain.Base.{ℕ, ◌%◌, ◌^◌, Option, some, Floats, ◌>>=◌}
use npchain.Crypto.Hash.{Hash256}
use npchain.Crypto.Rng.{new_rng}
use npchain.Ponw.Problem.{scaled}
use npchain.Ponw.Sat.{SatInstance}
use npchain.Ponw.SatGenerator.{max_attempts, planted_solution, draw_clauses}

module _ (fl : Floats) (fuel : ℕ) where
  open fl use {of_uint, literal, mul, to_uint}

  unfoldable pub generate_instance : Hash256 → ℕ → Option SatInstance
  generate_instance prev_hash difficulty = do
    let nv = scaled fl difficulty 10 25
    let nc = to_uint (mul (of_uint nv) (literal 4267 3)) % 2 ^ 32
    let (planted, rng) = planted_solution fl nv (new_rng prev_hash)
    (clauses, rng') ← draw_clauses fl fuel max_attempts nc nv planted rng
    some (record { num_variables = nv; num_clauses = nc; k = 3; clauses = clauses })
