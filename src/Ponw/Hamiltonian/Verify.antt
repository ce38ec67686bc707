-- ===== src/Ponw/Hamiltonian/Verify.antt =====
-- `HamiltonianInstance::verify` decides whether a path is Hamiltonian.
use npchain.Base.{
  ℕ, zero, suc, ◌^◌, ◌<◌, ◌≡◌, ◌↔◌, ◌⊎◌, inl, inr, refl, Bool, true, false, List, [], ◌∷◌, length,
  get_or, set, replicate, length-set, length-replicate, get_or-set, All, Any, NotIn, Distinct,
  contains, arith, sym, ◌∙◌, Bool-cases, ◌==◌,
}
use npchain.Ponw.Hamiltonian.{
  HamiltonianInstance, check_visits, edge_key, edge_set, check_steps, verify,
}

-- The edge joins u and v, in either direction.
abbrev pub Joins : ℕ → ℕ → ℕ × ℕ → Type 0
Joins u v (a, b) = ((a ≡ u) × (b ≡ v)) ⊎ ((a ≡ v) × (b ≡ u))

-- An edge joins each vertex of the path to the next one.
abbrev pub Linked : List (ℕ × ℕ) → List ℕ → Type 0
Linked edges [] = Unit {0}
Linked edges (u ∷ []) = Unit {0}
Linked edges (u ∷ v ∷ vs) = Any (Joins u v) edges × Linked edges (v ∷ vs)

pub record IsHamiltonian (inst : HamiltonianInstance) (path : List ℕ) : Type 0 where
  pub each_vertex : length path ≡ inst.num_vertices
  pub in_range : All (λ v. v < inst.num_vertices) path
  pub once : Distinct path
  pub linked : Linked inst.edges path

-- Both ends are values of uint32_t.
abbrev pub Ends32 : ℕ × ℕ → Type 0
Ends32 (u, v) = (u < 2 ^ 32) × (v < 2 ^ 32)

abbrev Fresh : List Bool → ℕ → Type 0
Fresh visited v = get_or visited v false ≡ false

unmark :
    (visited : List Bool) (v : ℕ) (vs : List ℕ)
    → v < length visited
    → All (Fresh (set visited v true)) vs
    → All (Fresh visited) vs × NotIn v vs
unmark visited v [] h f = (tt, tt)
unmark visited v (w ∷ ws) h (now, f) =
    let (hit, miss) = get_or-set visited v w true false h in
    let (rest, apart) = unmark visited v ws h f in
    ((ground (arith, hit, miss), rest), ((λ e. ground (arith, hit)), apart))

mark :
    (visited : List Bool) (v : ℕ) (vs : List ℕ)
    → v < length visited
    → All (Fresh visited) vs
    → NotIn v vs
    → All (Fresh (set visited v true)) vs
mark visited v [] h f apart = tt
mark visited v (w ∷ ws) h (now, f) (ne, apart) =
    let (hit, miss) = get_or-set visited v w true false h in
    (ground (arith, miss (λ e. ne (sym e))), mark visited v ws h f apart)

get_or-replicate : (n v : ℕ) → get_or (replicate n false) v false ≡ false
get_or-replicate zero v = refl
get_or-replicate (suc n) zero = refl
get_or-replicate (suc n) (suc v) = get_or-replicate n v

replicate-Fresh : (n : ℕ) (vs : List ℕ) → All (Fresh (replicate n false)) vs
replicate-Fresh n [] = tt
replicate-Fresh n (v ∷ vs) = (get_or-replicate n v, replicate-Fresh n vs)

check_visits_sound :
    (n : ℕ) (visited : List Bool) (vs : List ℕ)
    → length visited ≡ n
    → check_visits n visited vs ≡ true
    → All (λ v. v < n) vs × All (Fresh visited) vs × Distinct vs
unfolding check_visits
check_visits_sound n visited [] len e = (tt, tt, tt)
check_visits_sound n visited (v ∷ vs) len e =
    let within : v < n = ground arith in
    let marked : length (set visited v true) ≡ n = length-set visited v true ∙ len in
    let (range, fresh, once) = check_visits_sound n (set visited v true) vs marked (ground arith) in
    let (before, apart) = unmark visited v vs (omega arith) fresh in
    ((within, range), (ground arith, before), (apart, once))

check_visits_complete :
    (n : ℕ) (visited : List Bool) (vs : List ℕ)
    → length visited ≡ n
    → All (λ v. v < n) vs
    → All (Fresh visited) vs
    → Distinct vs
    → check_visits n visited vs ≡ true
unfolding check_visits
check_visits_complete n visited [] len range fresh once = refl
check_visits_complete n visited (v ∷ vs) len (within, range) (now, fresh) (apart, once) =
    let marked : length (set visited v true) ≡ n = length-set visited v true ∙ len in
    let after = mark visited v vs (omega arith) fresh apart in
    ground (arith, check_visits_complete n (set visited v true) vs marked range after once)

edge_key_iff :
    (u v a b : ℕ)
    → Ends32 (u, v)
    → Ends32 (a, b)
    → (edge_key (a, b) ≡ edge_key (u, v)) ↔ Joins u v (a, b)
unfolding edge_key
edge_key_iff u v a b (hu, hv) (ha, hb) = ((λ e. ground arith), (λ j. ground arith))

contains-edge_set_iff :
    (edges : List (ℕ × ℕ)) (u v : ℕ)
    → Ends32 (u, v)
    → All Ends32 edges
    → (contains (edge_set edges) (edge_key (u, v)) ≡ true) ↔ Any (Joins u v) edges
unfolding contains edge_set
contains-edge_set_iff [] u v h ends = ((λ e. absurd (cc)), (λ any. absurd any))
contains-edge_set_iff ((a, b) ∷ edges) u v h (end, ends) =
    let (to, from) = contains-edge_set_iff edges u v h ends in
    let (joins, key) = edge_key_iff u v a b h end in
    (
      (λ e. elim (Bool-cases (edge_key (a, b) == edge_key (u, v))) [
        | inl same ↦ inl (joins (ground (arith, same)))
        | inr other ↦ inr (to (ground (arith, other)))
      ]),
      (λ any. elim any [ inl j ↦ ground (arith, key j) | inr rest ↦ ground (arith, from rest) ]),
    )

check_steps_iff :
    (edges : List (ℕ × ℕ)) (path : List ℕ)
    → All Ends32 edges
    → All (λ v. v < 2 ^ 32) path
    → (check_steps (edge_set edges) path ≡ true) ↔ Linked edges path
unfolding check_steps
check_steps_iff edges [] ends path32 = ((λ e. tt), (λ l. refl))
check_steps_iff edges (u ∷ []) ends path32 = ((λ e. tt), (λ l. refl))
check_steps_iff edges (u ∷ v ∷ vs) ends (u32, vs32) =
    let (to, from) = check_steps_iff edges (v ∷ vs) ends vs32 in
    let (hit, found) = contains-edge_set_iff edges u v (u32, vs32.0) ends in
    (
      (λ e. (hit (ground arith), to (ground arith))),
      (λ (step, rest). ground (arith, found step, from rest)),
    )

below_32 : (n : ℕ) (path : List ℕ) → n < 2 ^ 32 → All (λ v. v < n) path → All (λ v. v < 2 ^ 32) path
below_32 n [] b range = tt
below_32 n (v ∷ vs) b (h, range) = (omega arith, below_32 n vs b range)

-- An instance with uint32_t vertices: `verify` accepts exactly the Hamiltonian paths, which visit
-- every vertex once and step along an edge, in either direction, from each vertex to the next.
pub verify-IsHamiltonian_iff :
    (inst : HamiltonianInstance) (path : List ℕ)
    → inst.num_vertices < 2 ^ 32
    → All Ends32 inst.edges
    → (verify inst path ≡ true) ↔ IsHamiltonian inst path
unfolding verify
verify-IsHamiltonian_iff inst path b ends =
    let n = inst.num_vertices in
    let len : length (replicate n false) ≡ n = length-replicate n false in
    (
      (λ e.
          let (range, fresh, once) =
            check_visits_sound n (replicate n false) path len (ground arith) in
          let (to, from) = check_steps_iff inst.edges path ends (below_32 n path b range) in
          record {
            each_vertex = ground arith;
            in_range = range;
            once = once;
            linked = to (ground arith);
          }),
      (λ h.
          let (to, from) = check_steps_iff inst.edges path ends (below_32 n path b h.in_range) in
          let visits =
            check_visits_complete n (replicate n false) path len h.in_range (replicate-Fresh n path)
              h.once in
          ground (arith, h.each_vertex, visits, from h.linked)),
    )
