-- ===== src/Testnet/Solver/Sound.antt =====
-- What `solve_sat` returns.
use npchain.Base.{
  ℕ, zero, suc, ◌+◌, ◌≡◌, ◌⊎◌, inl, inr, refl, ◌∙◌, Bool, true, Option, none, some, List, [], ◌∷◌,
  length, length-set, get_or, ap, ℤ, All, arith, Bool-cases, Option-cases,
}
use npchain.Ponw.Sat.{
  SatInstance, ClauseResult, var_index, literal_value, check_clause, check_clauses, verify,
}
use npchain.Testnet.Instance.Range.{InRange, IsPosed}
use npchain.Testnet.Solver.{
  xrand, random_assignment, clause_satisfied, find_target, flip, choose_literal, max_flips,
  flip_loop, attempt_loop, solve_sat,
}

clause_satisfied-check_clause :
    (asgn : List Bool) (n : ℕ) (clause : List ℤ)
    → All (InRange n) clause
    → clause_satisfied asgn clause ≡ true
    → check_clause n asgn clause ≡ ClauseResult.satisfied
unfolding clause_satisfied check_clause
clause_satisfied-check_clause asgn n [] range e = absurd (cc)
clause_satisfied-check_clause asgn n (l ∷ ls) (within, range) e =
    elim (Bool-cases (literal_value asgn l)) [
      | inl holds ↦ ground (arith, holds)
      | inr fails ↦
          ground (arith, fails, clause_satisfied-check_clause asgn n ls range (rw fails at e))
    ]

-- The search for a clause ends when none is left.
find_target-none :
    (asgn : List Bool) (n ci : ℕ) (clauses : List (List ℤ))
    → All (All (InRange n)) clauses
    → find_target asgn ci clauses ≡ none
    → check_clauses n asgn clauses ≡ true
unfolding find_target check_clauses
find_target-none asgn n ci [] range e = refl
find_target-none asgn n ci (c ∷ cs) (first, range) e = elim (Bool-cases (clause_satisfied asgn c)) [
  | inl sat ↦
      rw (clause_satisfied-check_clause asgn n c first sat)
        (find_target-none asgn n (ci + 1) cs range (rw sat at e))
  | inr unsat ↦ absurd (cc (rw unsat at e))
]

length-random_assignment : (n seed : ℕ) → length (random_assignment n seed).0 ≡ n
unfolding random_assignment
length-random_assignment zero seed = refl
length-random_assignment (suc n) seed = ap suc (length-random_assignment n (xrand seed))

-- A search that found nothing, or an assignment that `verify` accepts.
abbrev pub Sound : SatInstance → Option (List Bool) → Type 0
Sound inst found = (found ≡ none) ⊎ ((a : List Bool) × (found ≡ some a) × (verify inst a ≡ true))

verify_satisfied :
    (inst : SatInstance) (asgn : List Bool)
    → IsPosed inst
    → length asgn ≡ inst.num_variables
    → find_target asgn 0 inst.clauses ≡ none
    → verify inst asgn ≡ true
unfolding verify
verify_satisfied inst asgn range len e =
    ground (arith, len, find_target-none asgn inst.num_variables 0 inst.clauses range e)

flip_loop-Sound :
    (flips : ℕ) (inst : SatInstance) (asgn : List Bool) (seed : ℕ)
    → IsPosed inst
    → length asgn ≡ inst.num_variables
    → Sound inst (flip_loop flips inst asgn seed).0
unfolding flip_loop flip
flip_loop-Sound zero inst asgn seed range len = inl refl
flip_loop-Sound (suc flips) inst asgn seed range len =
    elim (Option-cases (find_target asgn 0 inst.clauses)) [
      | inl e ↦ rw (e, flip_loop) (inr (asgn, refl, verify_satisfied inst asgn range len e))
      | inr (target, e) ↦
          let (best_lit, seed') =
            choose_literal asgn inst.clauses (get_or inst.clauses target []) seed in
          let asgn' = flip asgn (var_index best_lit) in
          elim (Bool-cases (verify inst asgn')) [
            | inl accepted ↦ rw (e, accepted, flip_loop) (inr (asgn', refl, accepted))
            | inr refused ↦
                rw (e, refused, flip_loop)
                  (flip_loop-Sound flips inst asgn' seed' range (length-set asgn _ _ ∙ len))
          ]
    ]

attempt_loop-Sound :
    (left : ℕ) (expired : ℕ → Bool) (attempt : ℕ) (inst : SatInstance) (seed : ℕ)
    → IsPosed inst
    → Sound inst (attempt_loop left expired attempt inst seed)
unfolding attempt_loop
attempt_loop-Sound zero expired attempt inst seed range = inl refl
attempt_loop-Sound (suc left) expired attempt inst seed range =
    elim (Bool-cases (expired attempt)) [
      | inl late ↦ rw (late, attempt_loop) (inl refl)
      | inr in_time ↦
          let (asgn, seed1) = random_assignment inst.num_variables seed in
          let len = length-random_assignment inst.num_variables seed in
          let flips = max_flips inst.num_variables in
          elim (flip_loop-Sound flips inst asgn seed1 range len) [
            | inl failed ↦
                rw (in_time, failed, attempt_loop)
                  (attempt_loop-Sound left expired (attempt + 1) inst
                    (flip_loop flips inst asgn seed1).1 range)
            | inr (a, found, accepted) ↦ rw (in_time, found, attempt_loop) (inr (a, refl, accepted))
          ]
    ]

-- An instance whose literals are in range: whatever the seed and the time that the search gets, it
-- gives up, or returns an assignment that `verify` accepts.
pub solve_sat-Sound :
    (expired : ℕ → Bool) (seed : ℕ) (inst : SatInstance)
    → IsPosed inst
    → Sound inst (solve_sat expired seed inst)
unfolding solve_sat
solve_sat-Sound expired seed inst range = attempt_loop-Sound 5_000_000 expired 0 inst seed range
