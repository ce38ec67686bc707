-- ===== src/Ponw/PathGenerator/Planted.antt =====
-- Each generated Hamiltonian instance has a solution: the planted path.
use npchain.Base.{
  ℕ, zero, suc, ◌+◌, ◌-◌, ◌*◌, ◌%◌, ◌^◌, ◌<◌, ◌≡◌, min, max, true, List, [], ◌∷◌, ◌++◌, ◌||◌,
  length, All, All-append, Any, Returns, Returns-bind, contains, leb, ◌==◌, arith, Bool-cases, inl,
  inr,
}
use npchain.Crypto.Rng.{Rng}
use npchain.Crypto.Rng.Draws.{Lucky, Lucky-le}
use npchain.Ponw.Hamiltonian.{edge_key, verify}
use npchain.Ponw.Hamiltonian.Verify.{Joins, Linked, Ends32, verify-IsHamiltonian_iff}
use npchain.Ponw.PathGenerator.{path_edges, path_keys, draw_extra, target_extra, plant_path}
use npchain.Ponw.Shuffle.{iota, shuffle, draw_edge}
use npchain.Ponw.Shuffle.Arrangement.{
  IsArrangement, iota-IsArrangement, shuffle-IsArrangement, IsArrangement-All,
  IsArrangement-Distinct, draw_edge_lem,
}

-- Both ends are vertices.
abbrev EndsBelow : ℕ → ℕ × ℕ → Type 0
EndsBelow n (u, v) = (u < n) × (v < n)

path_edges-EndsBelow :
    (n : ℕ) (path : List ℕ) → All (λ v. v < n) path → All (EndsBelow n) (path_edges path)
unfolding path_edges
path_edges-EndsBelow n [] h = tt
path_edges-EndsBelow n (u ∷ []) h = tt
path_edges-EndsBelow n (u ∷ v ∷ vs) (hu, rest) =
    let hv = rest.0 in ((omega arith, omega arith), path_edges-EndsBelow n (v ∷ vs) rest)

Any-cons_weaken :
    (e : ℕ × ℕ) (edges : List (ℕ × ℕ)) (path : List ℕ) → Linked edges path → Linked (e ∷ edges) path
Any-cons_weaken e edges [] l = tt
Any-cons_weaken e edges (u ∷ []) l = tt
Any-cons_weaken e edges (u ∷ v ∷ vs) (step, l) = (inr step, Any-cons_weaken e edges (v ∷ vs) l)

Joins-ordered : (u v : ℕ) → Joins u v (min u v, max u v)
Joins-ordered u v = ground arith

path_edges-Linked : (path : List ℕ) → Linked (path_edges path) path
unfolding path_edges
path_edges-Linked [] = tt
path_edges-Linked (u ∷ []) = tt
path_edges-Linked (u ∷ v ∷ vs) = (
  inl (Joins-ordered u v),
  Any-cons_weaken (min u v, max u v) (path_edges (v ∷ vs)) (v ∷ vs) (path_edges-Linked (v ∷ vs)),
)

Any-append : (P : ℕ × ℕ → Type 0) (front rest : List (ℕ × ℕ)) → Any P front → Any P (front ++ rest)
Any-append P [] rest h = absurd h
Any-append P (e ∷ front) rest (inl now) = inl now
Any-append P (e ∷ front) rest (inr later) = inr (Any-append P front rest later)

Linked-append :
    (front rest : List (ℕ × ℕ)) (path : List ℕ) → Linked front path → Linked (front ++ rest) path
Linked-append front rest [] l = tt
Linked-append front rest (u ∷ []) l = tt
Linked-append front rest (u ∷ v ∷ vs) (step, l) =
    (Any-append (Joins u v) front rest step, Linked-append front rest (v ∷ vs) l)

-- What the edges promise of the planted path.
abbrev Carries : ℕ → List ℕ → List (ℕ × ℕ) → Type 0
Carries n path edges = Linked edges path × All (EndsBelow n) edges

module _ (fuel n : ℕ) (path : List ℕ) (some_vertices : 0 < n) where
  -- With two words for each attempt, the loop ends, and only adds edges between vertices.
  draw_extra-Carries :
      (attempts wanted : ℕ) (keys : List ℕ) (edges : List (ℕ × ℕ)) (rng : Rng)
      → Carries n path edges
      → Lucky n (2 * attempts) rng
      → Returns (draw_extra (suc fuel) attempts wanted n keys edges rng) (λ d. Carries n path d.0)
  unfolding draw_extra
  draw_extra-Carries zero wanted keys edges rng c lucky = c
  draw_extra-Carries (suc attempts) wanted keys edges rng c lucky =
      let lucky' =
        Lucky-le n (suc (suc (2 * attempts))) (2 * suc attempts) rng (omega arith) lucky in
      elim (Bool-cases (leb wanted (length keys))) [
        | inl enough ↦ rw (enough, draw_extra) c
        | inr fewer ↦
            rw (fewer, draw_extra)
              (Returns-bind (draw_edge (suc fuel) n rng) _
                (λ d. (d.0.0 < n) × (d.0.1 < n) × Lucky n (2 * attempts) d.1)
                (λ d. Carries n path d.0)
                (draw_edge_lem fuel n (2 * attempts) rng some_vertices lucky')
                λ ((u, v), rng1) (hu, hv, left).
                  elim (Bool-cases (u == v || contains keys (edge_key (u, v)))) [
                    | inl skipped ↦
                        rw skipped (draw_extra-Carries attempts wanted keys edges rng1 c left)
                    | inr kept ↦ rw kept (
                        draw_extra-Carries attempts wanted (edge_key (u, v) ∷ keys)
                          (edges ++ ((u, v) ∷ [])) rng1
                          (
                            Linked-append edges ((u, v) ∷ []) path c.0,
                            All-append (EndsBelow n) edges ((u, v) ∷ []) c.1 ((hu, hv), tt),
                          )
                          left)
                  ])
      ]

EndsBelow-Ends32 :
    (n : ℕ) (edges : List (ℕ × ℕ)) → n < 2 ^ 32 → All (EndsBelow n) edges → All Ends32 edges
EndsBelow-Ends32 n [] small h = tt
EndsBelow-Ends32 n (e ∷ es) small ((hu, hv), h) =
    ((omega arith, omega arith), EndsBelow-Ends32 n es small h)

-- With a word of the generator for each swap and two for each attempt.
pub plant_path-verify :
    (fuel : ℕ) (rng : Rng) (n degree : ℕ)
    → 0 < n
    → n < 2 ^ 32
    → Lucky n (n - 1 + 2 * (target_extra n degree * 10 % 2 ^ 32)) rng
    → Returns (plant_path (suc fuel) rng n degree) (λ d. verify d.0 d.1 ≡ true)
unfolding plant_path
plant_path-verify fuel rng n degree some_vertices small lucky =
    let attempts = target_extra n degree * 10 % 2 ^ 32 in
    Returns-bind (shuffle (suc fuel) (n - 1) (iota n) rng) _
      (λ d. IsArrangement n d.0 × Lucky n (2 * attempts) d.1) (λ d. verify d.0 d.1 ≡ true)
      (shuffle-IsArrangement fuel n (n - 1) (2 * attempts) (iota n) rng (omega arith)
        (iota-IsArrangement n) lucky)
      λ (path, rng1) (r, left).
        let range = IsArrangement-All n path r in
        Returns-bind
          (draw_extra (suc fuel) attempts _ n (path_keys (path_edges path)) (path_edges path) rng1)
          _ (λ d. Carries n path d.0) (λ d. verify d.0 d.1 ≡ true)
          (draw_extra-Carries fuel n path some_vertices attempts _ (path_keys (path_edges path))
            (path_edges path) rng1 (path_edges-Linked path, path_edges-EndsBelow n path range) left)
          λ (edges, rng2) (linked, ends).
            (verify-IsHamiltonian_iff (record { num_vertices = n; edges = edges }) path small
                (EndsBelow-Ends32 n edges small ends)).1
              (record {
                each_vertex = r.size;
                in_range = range;
                once = IsArrangement-Distinct n path r;
                linked = linked;
              })
