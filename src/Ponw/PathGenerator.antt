-- ===== src/Ponw/PathGenerator.antt =====
-- `InstanceGenerator::generate_hamiltonian` of src/consensus/ponw_engine.cpp.
pub mod Planted
use npchain.Base.{
  ℕ, zero, suc, ◌+◌, ◌-◌, ◌*◌, ◌/◌, ◌%◌, ◌^◌, min, max, Bool, true, false, Option, some, List, [],
  ◌∷◌, ◌++◌, ◌||◌, length, contains, leb, ◌==◌, if◌then◌else◌, Floats, ◌>>=◌,
}
use npchain.Crypto.Rng.{Rng}
use npchain.Ponw.Hamiltonian.{HamiltonianInstance, edge_key}
use npchain.Ponw.Problem.{ProblemType, difficulty_to_size}
use npchain.Ponw.Shuffle.{iota, shuffle, draw_edge}

-- The edges from each vertex of the path to the next one, the smaller end first.
unfoldable pub path_edges : List ℕ → List (ℕ × ℕ)
path_edges [] = []
path_edges (u ∷ []) = []
path_edges (u ∷ v ∷ vs) = (min u v, max u v) ∷ path_edges (v ∷ vs)

abbrev pub insert_key : ℕ → List ℕ → List ℕ
insert_key key keys = if contains keys key then keys else key ∷ keys

unfoldable pub path_keys : List (ℕ × ℕ) → List ℕ
path_keys [] = []
path_keys (e ∷ es) = insert_key (edge_key e) (path_keys es)

-- The attempts that are left; `keys` is the set of the edges so far, `wanted` its size to reach.
unfoldable pub draw_extra :
    ℕ → ℕ → ℕ → ℕ → List ℕ → List (ℕ × ℕ) → Rng → Option (List (ℕ × ℕ) × Rng)
draw_extra fuel zero wanted n keys edges rng = some (edges, rng)
draw_extra fuel (suc attempts) wanted n keys edges rng = elim (leb wanted (length keys)) [
  | true ↦ some (edges, rng)
  | false ↦ do
    ((u, v), rng1) ← draw_edge fuel n rng
    elim (u == v || contains keys (edge_key (u, v))) [
      | true ↦ draw_extra fuel attempts wanted n keys edges rng1
      | false ↦
          draw_extra fuel attempts wanted n (edge_key (u, v) ∷ keys) (edges ++ ((u, v) ∷ [])) rng1
    ]
]

-- n * avg_degree / 2 - (n - 1) in uint32_t
unfoldable pub target_extra : ℕ → ℕ → ℕ
target_extra n avg_degree =
    (n * avg_degree % 2 ^ 32 / 2 + 2 ^ 32 - (n + 2 ^ 32 - 1) % 2 ^ 32) % 2 ^ 32

-- The instance with its planted path, which the source forgets. Of no vertices, which no
-- difficulty asks for, the source shuffles out of bounds.
unfoldable pub plant_path : ℕ → Rng → ℕ → ℕ → Option (HamiltonianInstance × List ℕ)
plant_path fuel rng num_vertices avg_degree = do
  (path, rng1) ← shuffle fuel (num_vertices - 1) (iota num_vertices) rng
  let planted = path_edges path
  let extra = target_extra num_vertices avg_degree
  (edges, rng2) ←
      draw_extra fuel (extra * 10 % 2 ^ 32) ((num_vertices - 1 + extra) % 2 ^ 32) num_vertices
        (path_keys planted) planted rng1
  some (record { num_vertices = num_vertices; edges = edges }, path)

module _ (fl : Floats) (fuel : ℕ) where
  unfoldable pub generate_hamiltonian : Rng → ℕ → Option HamiltonianInstance
  generate_hamiltonian rng difficulty = do
    let (num_vertices, avg_degree) = difficulty_to_size fl ProblemType.hamiltonian_path difficulty
    (inst, path) ← plant_path fuel rng num_vertices avg_degree
    some inst
