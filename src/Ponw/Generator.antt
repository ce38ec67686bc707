-- ===== src/Ponw/Generator.antt =====
-- `InstanceGenerator::generate` of src/consensus/ponw_engine.cpp.
pub mod Solvable
use npchain.Base.{ℕ, Bytes, Option, some, Floats, ◌>>=◌}
use npchain.Crypto.Rng.{new_rng}
use npchain.Ponw.ColorGenerator.{generate_graph_color}
use npchain.Ponw.PathGenerator.{generate_hamiltonian}
use npchain.Ponw.Problem.{ProblemType, select_problem_type}
use npchain.Ponw.SatGenerator.{generate_sat}
use npchain.Ponw.SubsetGenerator.{generate_subset_sum}
use npchain.Ponw.Witness.{NpInstance}

module _ (fl : Floats) (fuel : ℕ) where
  unfoldable pub generate_as : ProblemType → Bytes → ℕ → Option NpInstance
  generate_as ProblemType.k_sat prev_block_hash difficulty = do
    inst ← generate_sat fl fuel (new_rng prev_block_hash) difficulty
    some (NpInstance.sat inst)
  generate_as ProblemType.subset_sum prev_block_hash difficulty = do
    inst ← generate_subset_sum fl fuel (new_rng prev_block_hash) difficulty
    some (NpInstance.subset_sum inst)
  generate_as ProblemType.graph_coloring prev_block_hash difficulty = do
    inst ← generate_graph_color fl fuel (new_rng prev_block_hash) difficulty
    some (NpInstance.graph_color inst)
  generate_as ProblemType.hamiltonian_path prev_block_hash difficulty = do
    inst ← generate_hamiltonian fl fuel (new_rng prev_block_hash) difficulty
    some (NpInstance.hamiltonian inst)

  -- The source's fallback case is not reached: there are four problem types.
  unfoldable pub generate : Bytes → ℕ → Option NpInstance
  generate prev_block_hash difficulty =
      generate_as (select_problem_type prev_block_hash) prev_block_hash difficulty
