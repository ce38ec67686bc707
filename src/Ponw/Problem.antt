-- ===== src/Ponw/Problem.antt =====
-- The problem types and their sizes: `select_problem_type` and `difficulty_to_size` of
-- src/consensus/ponw_engine.cpp.
use npchain.Base.{ℕ, ◌%◌, ◌^◌, max, get_or, ◌==◌, if◌then◌else◌, Bytes, Floats}

pub data ProblemType : Type 0 where
  k_sat subset_sum graph_coloring hamiltonian_path : ProblemType

-- `static_cast<ProblemType>` of a number below 4.
abbrev pub problem_type : ℕ → ProblemType
problem_type selector =
    if selector == 0
    then ProblemType.k_sat
    else if selector == 1
    then ProblemType.subset_sum
    else if selector == 2
    then ProblemType.graph_coloring
    else ProblemType.hamiltonian_path

unfoldable pub select_problem_type : Bytes → ProblemType
select_problem_type prev_block_hash = problem_type (get_or prev_block_hash 31 0 % 4)

module _ (fl : Floats) where
  open fl use {of_uint, literal, add, mul, log2, ln, to_uint}

  -- base + log_diff * factor / 10, as a uint32_t
  abbrev pub scaled : ℕ → ℕ → ℕ → ℕ
  scaled difficulty base factor =
      to_uint (add (literal base 0) (mul (log2 (of_uint (max difficulty 1))) (literal factor 1)))
      % 2 ^ 32

  unfoldable pub difficulty_to_size : ProblemType → ℕ → ℕ × ℕ
  difficulty_to_size ProblemType.k_sat difficulty =
      let num_vars = scaled difficulty 10 25 in
      (num_vars, to_uint (mul (of_uint num_vars) (literal 4267 3)) % 2 ^ 32)
  difficulty_to_size ProblemType.subset_sum difficulty =
      let set_size = scaled difficulty 8 20 in
      (set_size, to_uint (mul (of_uint set_size) (literal 10 1)) % 2 ^ 32)
  difficulty_to_size ProblemType.graph_coloring difficulty = (scaled difficulty 10 20, 45)
  difficulty_to_size ProblemType.hamiltonian_path difficulty =
      let num_vertices = scaled difficulty 8 18 in
      (num_vertices, max 2 (to_uint (mul (ln (of_uint num_vertices)) (literal 12 1)) % 2 ^ 32))
