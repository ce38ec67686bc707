-- ===== src/Mining/Examples.antt =====
-- The solver on a small formula.
use npchain.Base.{
  ℕ, ◌≡◌, refl, arith, true, false, Bool, none, some, Option, [], ◌∷◌, pos, negsuc, fractions,
  Whenever, ◌≤◌,
}
use npchain.Ponw.Engine.{Witness}
use npchain.Ponw.Problem.{ProblemType}
use npchain.Ponw.Sat.{SatInstance, var_index, verify, check_clauses, check_clause, literal_value}
use npchain.Mining.State.{InternalState, lit_value, assign, unassign}
use npchain.Mining.Propagate.{
  find_watch, settle_first, visit_unit, visit_watched, visit, visit_all, propagate_from,
  unit_propagate,
}
use npchain.Mining.Conflict.{
  Config, pop_trail, backtrack, learn, learn_all, or_fallback, pick_loop, pick_decision_variable,
  mark_seen, analyze_conflict, add_learned_clause, reduce_clause_db,
}
use npchain.Mining.Search.{
  initial_state, luby, bump_all, watch_first, load_clauses, learn_from, restart, after_conflict,
  pack_solution, search, solve_sat_instance,
}
use npchain.Mining.Search.Bound.{solve_sat_instance_bound}
use npchain.Mining.Search.Verified.{IsPacked, solve_sat_instance-IsPacked}
use npchain.Mining.Pool.{Stats, mine}
use npchain.Mining.Pool.First.{Outcome, first_witness, mine-Outcome}

abbrev standard : Config (ℕ × ℕ)
standard = record {
  vsids_decay = (95, 100);
  restart_base = 100;
  restart_mult = (15, 10);
  clause_db_limit = 100000;
  phase_saving = true;
}

-- (not x1 or x2), (x1 or not x2)
abbrev formula : SatInstance
formula = record {
  num_variables = 2;
  num_clauses = 2;
  k = 2;
  clauses = (negsuc 0 ∷ pos 2 ∷ []) ∷ (pos 1 ∷ negsuc 1 ∷ []) ∷ [];
}

abbrev never : ℕ → Bool
never turn = false

abbrev outcome : Option (Option Witness × InternalState (ℕ × ℕ)) → Option (Option Witness × ℕ)
outcome none = none
outcome (some (w, s)) = some (w, s.conflicts)

-- The decision for x1 propagates to x2.
formula_solved :
    outcome (solve_sat_instance fractions standard (λ lc. lc) never 20 20 formula)
    ≡ some (some (record { type = ProblemType.k_sat; solution_data = 0 ∷ 0 ∷ [] }), 0)
unfolding lit_value assign unassign find_watch settle_first visit_unit visit_watched visit visit_all
    propagate_from unit_propagate pop_trail backtrack learn learn_all or_fallback pick_loop
    pick_decision_variable mark_seen analyze_conflict add_learned_clause reduce_clause_db luby
    bump_all watch_first load_clauses learn_from restart after_conflict pack_solution search
    solve_sat_instance var_index verify check_clauses check_clause literal_value
formula_solved = refl

solve_sat_instance_bound_example :
    Whenever
      (solve_sat_instance fractions standard (λ lc. lc) never 20 20 formula)
      (λ r. r.1.conflicts ≤ 100)
solve_sat_instance_bound_example =
    solve_sat_instance_bound fractions standard (λ lc. lc) never 20 formula 20 (omega arith)
      (omega arith)

solve_sat_instance-IsPacked_example :
    Whenever
      (solve_sat_instance fractions standard (λ lc. lc) never 20 20 formula)
      (λ r. Whenever r.0 (IsPacked formula))
solve_sat_instance-IsPacked_example =
    solve_sat_instance-IsPacked fractions standard (λ lc. lc) never 20 formula 20

abbrev idle : Stats
idle = record { attempts = 0; solutions = 0; timeouts = 0; last_solver = [] }

abbrev ones : Witness
ones = record { type = ProblemType.k_sat; solution_data = 1 ∷ 1 ∷ [] }

mine-Outcome_example :
    Outcome idle
      (first_witness ((1 ∷ [], none) ∷ (2 ∷ [], some ones) ∷ (3 ∷ [], some ones) ∷ []))
      (mine idle ((1 ∷ [], none) ∷ (2 ∷ [], some ones) ∷ (3 ∷ [], some ones) ∷ []))
mine-Outcome_example =
    mine-Outcome idle ((1 ∷ [], none) ∷ (2 ∷ [], some ones) ∷ (3 ∷ [], some ones) ∷ [])

abbrev start : InternalState (ℕ × ℕ)
start = initial_state fractions standard (λ lc. lc) never 20 2

abbrev loaded : InternalState (ℕ × ℕ)
loaded = load_clauses fractions start formula.clauses
