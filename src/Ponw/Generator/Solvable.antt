-- ===== src/Ponw/Generator/Solvable.antt =====
-- Every generated instance has a solution.
use npchain.Base.{
  ℕ, suc, ◌+◌, ◌-◌, ◌*◌, ◌%◌, ◌^◌, ◌<◌, ◌≤◌, ◌≡◌, true, Bytes, Floats, List, Returns, Returns-bind,
}
use npchain.Crypto.Rng.{new_rng}
use npchain.Crypto.Rng.Draws.{Fair, Lucky}
use npchain.Ponw.ColorGenerator.{max_edges, plant_coloring, generate_graph_color}
use npchain.Ponw.ColorGenerator.Planted.{plant_coloring-verify}
use npchain.Ponw.Generator.{generate_as, generate}
use npchain.Ponw.GraphColor
use npchain.Ponw.Hamiltonian
use npchain.Ponw.PathGenerator.{target_extra, plant_path, generate_hamiltonian}
use npchain.Ponw.PathGenerator.Planted.{plant_path-verify}
use npchain.Ponw.Problem.{ProblemType, difficulty_to_size, select_problem_type}
use npchain.Ponw.SatGenerator.{planted_solution, generate_sat}
use npchain.Ponw.SatGenerator.Planted.{generate_sat-SolvedBy}
use npchain.Ponw.SatGenerator.Planted as SatPlanted
use npchain.Ponw.SubsetGenerator.{plant_subset, generate_subset_sum}
use npchain.Ponw.SubsetGenerator.Planted.{plant_subset-verify}
use npchain.Ponw.SubsetSum
use npchain.Ponw.Witness.{NpInstance, DecodedWitness, verify_decoded}

-- Some witness is accepted.
abbrev pub Solvable : NpInstance → Type 0
Solvable inst = (w : DecodedWitness) × (verify_decoded inst w ≡ true)

-- What the size and the generator of numbers have to give: a size in range, and draws that end.
-- For the three problems other than SAT the latter is said of the words that are drawn: each is at
-- least the number of elements or vertices.
abbrev pub CanGenerate : Floats → ℕ → Bytes → ℕ → ProblemType → Type 0
CanGenerate fl fuel hash difficulty ProblemType.k_sat =
    let n = (difficulty_to_size fl ProblemType.k_sat difficulty).0 in
    (n < 2 ^ 31) × Fair (suc fuel) n
CanGenerate fl fuel hash difficulty ProblemType.subset_sum =
    let n = (difficulty_to_size fl ProblemType.subset_sum difficulty).0 in
    (2 ≤ n) × Lucky n (2 * n) (new_rng hash)
CanGenerate fl fuel hash difficulty ProblemType.graph_coloring =
    let n = (difficulty_to_size fl ProblemType.graph_coloring difficulty).0 in
    (3 ≤ n) × Lucky n (n + 2 * (max_edges n * 3 % 2 ^ 32)) (new_rng hash)
CanGenerate fl fuel hash difficulty ProblemType.hamiltonian_path =
    let (n, degree) = difficulty_to_size fl ProblemType.hamiltonian_path difficulty in
    (0 < n)
    × (n < 2 ^ 32)
    × Lucky n (n - 1 + 2 * (target_extra n degree * 10 % 2 ^ 32)) (new_rng hash)

module _ (fl : Floats) (fuel : ℕ) (hash : Bytes) (difficulty : ℕ) where
  generate_as-Solvable :
      (type : ProblemType)
      → CanGenerate fl fuel hash difficulty type
      → Returns (generate_as fl (suc fuel) type hash difficulty) Solvable
  unfolding generate_as generate_subset_sum generate_graph_color generate_hamiltonian verify_decoded
  generate_as-Solvable ProblemType.k_sat (small, fair) =
      let n = (difficulty_to_size fl ProblemType.k_sat difficulty).0 in
      let planted = (planted_solution fl n (new_rng hash)).0 in
      Returns-bind (generate_sat fl (suc fuel) (new_rng hash) difficulty) _
        (SatPlanted.SolvedBy planted) Solvable
        (generate_sat-SolvedBy fl (suc fuel) (new_rng hash) difficulty small fair)
        λ inst (accepted, short, sizes). (DecodedWitness.variable_assignments planted, accepted)
  generate_as-Solvable ProblemType.subset_sum (two, lucky) =
      Returns-bind (generate_subset_sum fl (suc fuel) (new_rng hash) difficulty) _
        (λ inst. (w : List ℕ) × (SubsetSum.verify inst w ≡ true)) Solvable
        (let (n, bits) = difficulty_to_size fl ProblemType.subset_sum difficulty in
          Returns-bind (plant_subset (suc fuel) (new_rng hash) n bits) _
            (λ d. SubsetSum.verify d.0 d.1 ≡ true) _
            (plant_subset-verify fuel (new_rng hash) n bits two lucky)
            λ (inst, planted) accepted. (planted, accepted))
        λ inst (planted, accepted). (DecodedWitness.selected_indices planted, accepted)
  generate_as-Solvable ProblemType.graph_coloring (three, lucky) =
      Returns-bind (generate_graph_color fl (suc fuel) (new_rng hash) difficulty) _
        (λ inst. (w : List ℕ) × (GraphColor.verify inst w ≡ true)) Solvable
        (let (n, density) = difficulty_to_size fl ProblemType.graph_coloring difficulty in
          Returns-bind (plant_coloring (suc fuel) (new_rng hash) n density) _
            (λ d. GraphColor.verify d.0 d.1 ≡ true) _
            (plant_coloring-verify fuel (new_rng hash) n density three lucky)
            λ (inst, planted) accepted. (planted, accepted))
        λ inst (planted, accepted). (DecodedWitness.vertex_colors planted, accepted)
  generate_as-Solvable ProblemType.hamiltonian_path (positive, small, lucky) =
      Returns-bind (generate_hamiltonian fl (suc fuel) (new_rng hash) difficulty) _
        (λ inst. (w : List ℕ) × (Hamiltonian.verify inst w ≡ true)) Solvable
        (let (n, degree) = difficulty_to_size fl ProblemType.hamiltonian_path difficulty in
          Returns-bind (plant_path (suc fuel) (new_rng hash) n degree) _
            (λ d. Hamiltonian.verify d.0 d.1 ≡ true) _
            (plant_path-verify fuel (new_rng hash) n degree positive small lucky)
            λ (inst, planted) accepted. (planted, accepted))
        λ inst (planted, accepted). (DecodedWitness.path planted, accepted)

  pub generate-Solvable :
      CanGenerate fl fuel hash difficulty (select_problem_type hash)
      → Returns (generate fl (suc fuel) hash difficulty) Solvable
  unfolding generate
  generate-Solvable can = generate_as-Solvable (select_problem_type hash) can
