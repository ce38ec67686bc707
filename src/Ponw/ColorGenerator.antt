-- ===== src/Ponw/ColorGenerator.antt =====
-- `InstanceGenerator::generate_graph_color` of src/consensus/ponw_engine.cpp.
pub mod Planted
use npchain.Base.{
  ℕ, zero, suc, ◌+◌, ◌-◌, ◌*◌, ◌/◌, ◌%◌, ◌^◌, min, max, Bool, true, false, Option, some, List, [],
  ◌∷◌, ◌++◌, ◌||◌, length, get_or, contains, leb, ◌==◌, if◌then◌else◌, Floats, ◌>>=◌,
}
use npchain.Crypto.Rng.{Rng, next_bounded}
use npchain.Ponw.GraphColor.{GraphColorInstance}
use npchain.Ponw.Hamiltonian.{edge_key}
use npchain.Ponw.Shuffle.{draw_edge}
use npchain.Ponw.Problem.{ProblemType, difficulty_to_size}

unfoldable pub draw_colors : ℕ → ℕ → Rng → Option (List ℕ × Rng)
draw_colors fuel zero rng = some ([], rng)
draw_colors fuel (suc n) rng = do
  (color, rng1) ← next_bounded fuel 3 rng
  (colors, rng2) ← draw_colors fuel n rng1
  some (color ∷ colors, rng2)

-- n * (n - 1) / 2 in uint32_t
unfoldable pub max_edges : ℕ → ℕ
max_edges n = n * (n + 2 ^ 32 - 1) % 2 ^ 32 / 2

-- An edge that is not added: a loop, one between equal colors, or one that is there.
abbrev pub is_skipped : List ℕ → List ℕ → ℕ → ℕ → Bool
is_skipped planted keys u v =
    u == v || (get_or planted u 0 == get_or planted v 0) || contains keys (edge_key (u, v))

-- The attempts that are left; `keys` is the set of the edges so far.
unfoldable pub draw_edges :
    ℕ → ℕ → ℕ → ℕ → List ℕ → List ℕ → List (ℕ × ℕ) → Rng → Option (List (ℕ × ℕ) × Rng)
draw_edges fuel zero target n planted keys edges rng = some (edges, rng)
draw_edges fuel (suc attempts) target n planted keys edges rng = elim (leb target (length edges)) [
  | true ↦ some (edges, rng)
  | false ↦ do
    ((u, v), rng1) ← draw_edge fuel n rng
    elim (is_skipped planted keys u v) [
      | true ↦ draw_edges fuel attempts target n planted keys edges rng1
      | false ↦
          draw_edges fuel attempts target n planted (edge_key (u, v) ∷ keys)
            (edges ++ ((u, v) ∷ [])) rng1
    ]
]

-- The instance with its planted coloring, which the source forgets.
unfoldable pub plant_coloring : ℕ → Rng → ℕ → ℕ → Option (GraphColorInstance × List ℕ)
plant_coloring fuel rng num_vertices edge_density_pct = do
  (planted, rng1) ← draw_colors fuel num_vertices rng
  let most = max_edges num_vertices
  (edges, rng2) ←
      draw_edges fuel (most * 3 % 2 ^ 32) (most * edge_density_pct % 2 ^ 32 / 100) num_vertices
        planted [] [] rng1
  some (record { num_vertices = num_vertices; num_colors = 3; edges = edges }, planted)

module _ (fl : Floats) (fuel : ℕ) where
  unfoldable pub generate_graph_color : Rng → ℕ → Option GraphColorInstance
  generate_graph_color rng difficulty = do
    let (num_vertices, edge_density_pct) =
        difficulty_to_size fl ProblemType.graph_coloring difficulty
    (inst, planted) ← plant_coloring fuel rng num_vertices edge_density_pct
    some inst
