-- ===== src/Ponw/ColorGenerator/Planted.antt =====
-- Each generated Graph Coloring instance has a solution: the planted coloring.
use npchain.Base.{
  ℕ, zero, suc, ◌+◌, ◌*◌, ◌%◌, ◌^◌, ◌<◌, ◌≤◌, ◌≡◌, refl, true, false, List, [], ◌∷◌, ◌++◌, length,
  get_or, All, All-append, Returns, Returns-bind, leb, arith, Bool-cases, inl, inr,
}
use npchain.Crypto.Rng.{Rng, next_u64}
use npchain.Crypto.Rng.Draws.{Lucky, Lucky-draw, Lucky-le}
use npchain.Ponw.ColorGenerator.{draw_colors, max_edges, is_skipped, draw_edges, plant_coloring}
use npchain.Ponw.Shuffle.{draw_edge}
use npchain.Ponw.Shuffle.Arrangement.{draw_edge_lem}
use npchain.Ponw.GraphColor.{verify}
use npchain.Ponw.GraphColor.Verify.{EdgeProper, get_elem?-get_or, verify-IsColoring_iff}
use npchain.Ponw.Hamiltonian.{edge_key}

draw_colors_lem :
    (fuel n bound rest : ℕ) (rng : Rng)
    → 3 ≤ bound
    → Lucky bound (n + rest) rng
    → Returns
        (draw_colors (suc fuel) n rng)
        (λ d. (length d.0 ≡ n) × All (λ c. c < 3) d.0 × Lucky bound rest d.1)
unfolding draw_colors
draw_colors_lem fuel zero bound rest rng le lucky =
    (refl, tt, Lucky-le bound rest (0 + rest) rng (omega arith) lucky)
draw_colors_lem fuel (suc n) bound rest rng le lucky =
    let lucky' = Lucky-le bound (suc (n + rest)) (suc n + rest) rng (omega arith) lucky in
    let (drawn, below) = Lucky-draw fuel bound (n + rest) 3 rng lucky' (omega arith) le in
    let next = (next_u64 rng).1 in
    rw drawn (
      Returns-bind (draw_colors (suc fuel) n next) _
        (λ d. (length d.0 ≡ n) × All (λ c. c < 3) d.0 × Lucky bound rest d.1)
        (λ d. (length d.0 ≡ suc n) × All (λ c. c < 3) d.0 × Lucky bound rest d.1)
        (draw_colors_lem fuel n bound rest next le lucky'.1)
        λ (colors, rng2) (len, range, left). (omega arith, (below, range), left))

kept-EdgeProper :
    (planted keys : List ℕ) (u v : ℕ)
    → u < length planted
    → v < length planted
    → is_skipped planted keys u v ≡ false
    → EdgeProper planted (u, v)
kept-EdgeProper planted keys u v hu hv kept = (
  get_or planted u 0,
  get_or planted v 0,
  get_elem?-get_or planted u hu,
  get_elem?-get_or planted v hv,
  (λ e. ground arith),
)

module _ (fuel n : ℕ) (planted : List ℕ) (size : length planted ≡ n) (some_vertices : 0 < n) where
  -- With two words for each attempt, the loop ends, and keeps its edges proper.
  draw_edges-EdgeProper :
      (attempts target : ℕ) (keys : List ℕ) (edges : List (ℕ × ℕ)) (rng : Rng)
      → All (EdgeProper planted) edges
      → Lucky n (2 * attempts) rng
      → Returns
          (draw_edges (suc fuel) attempts target n planted keys edges rng)
          (λ d. All (EdgeProper planted) d.0)
  unfolding draw_edges
  draw_edges-EdgeProper zero target keys edges rng proper lucky = proper
  draw_edges-EdgeProper (suc attempts) target keys edges rng proper lucky =
      let lucky' =
        Lucky-le n (suc (suc (2 * attempts))) (2 * suc attempts) rng (omega arith) lucky in
      elim (Bool-cases (leb target (length edges))) [
        | inl enough ↦ rw (enough, draw_edges) proper
        | inr fewer ↦
            rw (fewer, draw_edges)
              (Returns-bind (draw_edge (suc fuel) n rng) _
                (λ d. (d.0.0 < n) × (d.0.1 < n) × Lucky n (2 * attempts) d.1)
                (λ d. All (EdgeProper planted) d.0)
                (draw_edge_lem fuel n (2 * attempts) rng some_vertices lucky')
                λ ((u, v), rng1) (hu, hv, left). elim (Bool-cases (is_skipped planted keys u v)) [
                  | inl skipped ↦
                      rw skipped (draw_edges-EdgeProper attempts target keys edges rng1 proper left)
                  | inr kept ↦ rw kept (
                      draw_edges-EdgeProper attempts target (edge_key (u, v) ∷ keys)
                        (edges ++ ((u, v) ∷ [])) rng1
                        (All-append (EdgeProper planted) edges ((u, v) ∷ []) proper
                          (kept-EdgeProper planted keys u v (omega arith) (omega arith) kept, tt))
                        left)
                ])
      ]

-- With a word of the generator for each vertex and two for each attempt.
pub plant_coloring-verify :
    (fuel : ℕ) (rng : Rng) (n density : ℕ)
    → 3 ≤ n
    → Lucky n (n + 2 * (max_edges n * 3 % 2 ^ 32)) rng
    → Returns (plant_coloring (suc fuel) rng n density) (λ d. verify d.0 d.1 ≡ true)
unfolding plant_coloring
plant_coloring-verify fuel rng n density three lucky =
    let attempts = max_edges n * 3 % 2 ^ 32 in
    Returns-bind (draw_colors (suc fuel) n rng) _
      (λ d. (length d.0 ≡ n) × All (λ c. c < 3) d.0 × Lucky n (2 * attempts) d.1)
      (λ d. verify d.0 d.1 ≡ true) (draw_colors_lem fuel n n (2 * attempts) rng three lucky)
      λ (planted, rng1) (len, range, left).
        Returns-bind (draw_edges (suc fuel) attempts _ n planted [] [] rng1) _
          (λ d. All (EdgeProper planted) d.0) (λ d. verify d.0 d.1 ≡ true)
          (draw_edges-EdgeProper fuel n planted len (omega arith) attempts _ [] [] rng1 tt left)
          λ (edges, rng2) proper.
            (verify-IsColoring_iff (record { num_vertices = n; num_colors = 3; edges = edges })
                planted).1
              (record { each_vertex = len; in_range = range; proper = proper })
