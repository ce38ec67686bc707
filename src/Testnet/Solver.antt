-- ===== src/Testnet/Solver.antt =====
-- `solve_sat` of src/testnet_node.cpp: the WalkSAT search for a witness. The two readings of the
-- clock are arguments: the first seed, and when an attempt has no time left.
pub mod Sound
use Prim.Native.Nat.{bit_xor}
use npchain.Base.{
  ℕ, zero, suc, ◌+◌, ◌*◌, ◌/◌, ◌%◌, ◌^◌, Bool, true, false, not, Option, none, some, List, [], ◌∷◌,
  length, get_or, set, ltb, ◌==◌, if◌then◌else◌, ℤ, pos,
}
use npchain.Ponw.Sat.{SatInstance, var_index, literal_value, verify}

-- `xrand`: the number drawn is the new seed.
unfoldable pub xrand : ℕ → ℕ
xrand seed =
    let seed1 = bit_xor seed (seed * 2 ^ 13 % 2 ^ 64) in
    let seed2 = bit_xor seed1 (seed1 / 2 ^ 7) in bit_xor seed2 (seed2 * 2 ^ 17 % 2 ^ 64)

unfoldable pub random_assignment : ℕ → ℕ → List Bool × ℕ
random_assignment zero seed = ([], seed)
random_assignment (suc n) seed =
    let (values, seed') = random_assignment n (xrand seed) in
    ((xrand seed % 2 == 1) ∷ values, seed')

unfoldable pub clause_satisfied : List Bool → List ℤ → Bool
clause_satisfied asgn [] = false
clause_satisfied asgn (literal ∷ rest) =
    let next = clause_satisfied asgn rest in if literal_value asgn literal then true else next

-- The index of the first clause that is not satisfied, where the clauses start at index `ci`.
unfoldable pub find_target : List Bool → ℕ → List (List ℤ) → Option ℕ
find_target asgn ci [] = none
find_target asgn ci (clause ∷ rest) =
    let next = find_target asgn (ci + 1) rest in
    if clause_satisfied asgn clause then next else some ci

unfoldable pub count_breaks : List Bool → List (List ℤ) → ℕ
count_breaks asgn [] = 0
count_breaks asgn (clause ∷ rest) =
    let breaks = count_breaks asgn rest in
    if clause_satisfied asgn clause then breaks else breaks + 1

-- asgn[v] = !asgn[v]
unfoldable pub flip : List Bool → ℕ → List Bool
flip asgn v = set asgn v (not (get_or asgn v false))

-- The literals of the clause that are left, after the best one so far and its count. The
-- assignment itself is flipped back each time.
unfoldable pub greedy_loop : List Bool → List (List ℤ) → List ℤ → ℕ → ℤ → ℤ
greedy_loop asgn clauses [] best_breaks best_lit = best_lit
greedy_loop asgn clauses (literal ∷ rest) best_breaks best_lit =
    let breaks = count_breaks (flip asgn (var_index literal)) clauses in
    let better = greedy_loop asgn clauses rest breaks literal in
    let same = greedy_loop asgn clauses rest best_breaks best_lit in
    if ltb breaks best_breaks then better else same

-- The literal to flip, and the seed after it. The source divides by zero for an empty clause.
unfoldable pub choose_literal : List Bool → List (List ℤ) → List ℤ → ℕ → ℤ × ℕ
choose_literal asgn clauses clause seed =
    let seed1 = xrand seed in
    let seed2 = xrand seed1 in
    let seed3 = xrand seed2 in
    let first = get_or clause (seed1 % length clause) (pos 0) in
    if ltb (seed2 % 100) 30
    then (get_or clause (seed3 % length clause) (pos 0), seed3)
    else (greedy_loop asgn clauses clause (length clauses + 1) first, seed2)

-- static_cast<int>(num_variables * 5): the loop does not run for a negative bound.
unfoldable pub max_flips : ℕ → ℕ
max_flips num_variables =
    let bound = num_variables * 5 % 2 ^ 32 in if ltb bound (2 ^ 31) then bound else 0

-- The flips that are left of one attempt: the solution, if one is found, and the seed.
unfoldable pub flip_loop : ℕ → SatInstance → List Bool → ℕ → Option (List Bool) × ℕ
flip_loop zero inst asgn seed = (none, seed)
flip_loop (suc flips) inst asgn seed = elim (find_target asgn 0 inst.clauses) [
  | none ↦ (some asgn, seed)
  | some target ↦
      let (best_lit, seed') =
        choose_literal asgn inst.clauses (get_or inst.clauses target []) seed in
      let asgn' = flip asgn (var_index best_lit) in
      elim (verify inst asgn') [
        | true ↦ (some asgn', seed')
        | false ↦ flip_loop flips inst asgn' seed'
      ]
]

-- The attempts that are left; `expired` says of an attempt that it starts after the time limit or
-- the shutdown.
unfoldable pub attempt_loop : ℕ → (ℕ → Bool) → ℕ → SatInstance → ℕ → Option (List Bool)
attempt_loop zero expired attempt inst seed = none
attempt_loop (suc left) expired attempt inst seed = elim (expired attempt) [
  | true ↦ none
  | false ↦
      let (asgn, seed1) = random_assignment inst.num_variables seed in
      let (found, seed2) = flip_loop (max_flips inst.num_variables) inst asgn seed1 in
      elim found [
        | some solution ↦ some solution
        | none ↦ attempt_loop left expired (attempt + 1) inst seed2
      ]
]

unfoldable pub solve_sat : (ℕ → Bool) → ℕ → SatInstance → Option (List Bool)
solve_sat expired seed inst = attempt_loop 5_000_000 expired 0 inst seed
