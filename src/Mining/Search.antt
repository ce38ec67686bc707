-- ===== src/Mining/Search.antt =====
-- `CDCLSolver::solve` of src/mining/sat_solver.cpp: the clauses are loaded, then the search takes
-- turns until it ends or is stopped.
mod Frame
mod Rule
pub mod Loaded
pub mod Bound
pub mod Verified
use npchain.Base.{
  ℕ, zero, suc, ◌+◌, ◌-◌, ◌*◌, ◌%◌, ◌^◌, Bool, true, false, not, Option, none, some, List, [], ◌∷◌,
  ◌++◌, map, length, get_or, set, replicate, ltb, leb, ◌==◌, if◌then◌else◌, ℤ, pos, negsuc, Floats,
  ◌>>=◌,
}
use npchain.Ponw.Engine.{Witness}
use npchain.Ponw.Problem.{ProblemType}
use npchain.Ponw.Sat.{SatInstance, var_index, verify}
use npchain.Ponw.Witness.{NpInstance}
use npchain.Mining.State.{VarState, Clause, InternalState, is_true_state, assign}
use npchain.Mining.Propagate.{PropResult, watch, unit_propagate}
use npchain.Mining.Conflict.{
  Config, pick_decision_variable, analyze_conflict, backtrack, add_learned_clause, reduce_clause_db,
}

-- The loop of `luby`. Shifts by less than 64 places are exact.
unfoldable pub luby : ℕ → ℕ → ℕ → Option ℕ
luby zero i k = none
luby (suc fuel) i k = elim (i == 2 ^ k - 1) [
  | true ↦ some (2 ^ (k - 1))
  | false ↦ elim (leb (2 ^ (k - 1)) i) [
    | true ↦ luby fuel (i - (2 ^ (k - 1) - 1)) 1
    | false ↦ luby fuel i (k + 1)
  ]
]

abbrev pub byte_of : Bool → ℕ
byte_of b = if b then 1 else 0

module _ (fl : Floats) where
  open fl use {Double, literal, add}

  unfoldable pub bump_all : List Double → List ℤ → List Double
  bump_all activity [] = activity
  bump_all activity (lit ∷ lits) =
      let var = var_index lit in
      bump_all (set activity var (add (get_or activity var (literal 0 0)) (literal 1 0))) lits

  unfoldable pub watch_first : InternalState Double → ℕ → List ℤ → InternalState Double
  watch_first s ci [] = s
  watch_first s ci (lit ∷ []) = watch fl s lit ci
  watch_first s ci (a ∷ b ∷ lits) = watch fl (watch fl s a ci) b ci

  unfoldable pub learn_from : InternalState Double → InternalState Double
  learn_from s =
      let (s1, learned, level) = analyze_conflict fl (record s { conflicts = s.conflicts + 1 }) in
      add_learned_clause fl (backtrack s1 level) learned

  abbrev pub load_clause : InternalState Double → List ℤ → InternalState Double
  load_clause s lits =
      let c : Clause Double = record { literals = lits; learned = false; activity = literal 0 0 } in
      record (watch_first s (length s.clauses) lits) {
        var_activity = bump_all s.var_activity lits;
        clauses = s.clauses ++ (c ∷ []);
      }

  unfoldable pub load_clauses : InternalState Double → List (List ℤ) → InternalState Double
  load_clauses s [] = s
  load_clauses s (lits ∷ rest) = load_clauses (load_clause s lits) rest

  unfoldable pub restart : InternalState Double → InternalState Double
  restart s = record (backtrack s 0) { restarts = s.restarts + 1 }

  -- `sort` is std::sort of the learned clauses, `is_stopped` what a turn reads from the flag and
  -- the clock, `fuel` bounds the loops inside a turn.
  module _ (cfg : Config Double) (sort : List (Clause Double) → List (Clause Double))
      (is_stopped : ℕ → Bool) (fuel : ℕ) where
    abbrev pub initial_state : ℕ → InternalState Double
    initial_state n = record {
      num_vars = n;
      assignment = replicate n VarState.unassigned;
      decision_level = replicate n none;
      antecedent = replicate n none;
      phase_cache = replicate n false;
      trail = [];
      trail_lim = [];
      current_level = 0;
      clauses = [];
      learned_clauses = [];
      watches = replicate (2 * n % 2 ^ 32) [];
      var_activity = replicate n (literal 0 0);
      var_activity_inc = literal 1 0;
      var_decay = cfg.vsids_decay;
      conflicts = 0;
      propagations = 0;
      decisions = 0;
      restarts = 0;
    }

    abbrev pub reduce_if_large : InternalState Double → InternalState Double
    reduce_if_large s =
        if ltb cfg.clause_db_limit (length s.learned_clauses) then reduce_clause_db fl sort s else s

    -- The steps 2 to 6 of a turn, with the number of restarts and the conflicts of the next one.
    unfoldable pub after_conflict :
        InternalState Double → ℕ → ℕ → Option (InternalState Double × ℕ × ℕ)
    after_conflict s restart_count next_restart =
        let s1 = learn_from s in
        elim (leb next_restart s1.conflicts) [
          | false ↦ some (reduce_if_large s1, restart_count, next_restart)
          | true ↦ do
            factor ← luby fuel (restart_count + 1) 1
            some (
              reduce_if_large (restart s1),
              restart_count + 1,
              cfg.restart_base * factor % 2 ^ 64,
            )
        ]

    abbrev pub decide : InternalState Double → ℤ → InternalState Double
    decide s decision =
        let opened = record s {
          current_level = s.current_level + 1;
          trail_lim = length s.trail ∷ s.trail_lim;
        } in
        record (assign opened decision none) { decisions = s.decisions + 1 }

    -- All variables are assigned.
    unfoldable pub pack_solution : SatInstance → InternalState Double → Option Witness
    pack_solution inst s =
        let solution = map is_true_state s.assignment in
        if not (verify inst solution)
        then none
        else some (record { type = ProblemType.k_sat; solution_data = map byte_of solution })

    -- The turns that are left; `none` is a search that has not ended. The state stays in the solver.
    unfoldable pub search :
        ℕ
        → SatInstance
        → ℕ
        → InternalState Double
        → ℕ
        → ℕ
        → Option (Option Witness × InternalState Double)
    search zero inst turn s restart_count next_restart = none
    search (suc left) inst turn s restart_count next_restart = elim (is_stopped turn) [
      | true ↦ some (none, s)
      | false ↦ do
        (s1, result) ← unit_propagate fl fuel s
        elim result [
          | PropResult.unsat ↦ some (none, s1)
          | PropResult.conflict ↦ elim (s1.current_level == 0) [
            | true ↦ some (none, s1)
            | false ↦ do
              (s2, count, next) ← after_conflict s1 restart_count next_restart
              search left inst (turn + 1) s2 count next
          ]
          | PropResult.ok ↦ elim (pick_decision_variable fl cfg s1) [
            | pos zero ↦ some (pack_solution inst s1, s1)
            | pos (suc n) ↦
                search left inst (turn + 1) (decide s1 (pos (suc n))) restart_count next_restart
            | negsuc n ↦
                search left inst (turn + 1) (decide s1 (negsuc n)) restart_count next_restart
          ]
        ]
    ]

    unfoldable pub solve_sat_instance :
        ℕ → SatInstance → Option (Option Witness × InternalState Double)
    solve_sat_instance turns inst =
        search turns inst 0 (load_clauses (initial_state inst.num_variables) inst.clauses) 0
          cfg.restart_base

    -- Any other problem has no witness; the state is then not touched.
    unfoldable pub solve :
        ℕ → NpInstance → InternalState Double → Option (Option Witness × InternalState Double)
    solve turns (NpInstance.sat inst) s = solve_sat_instance turns inst
    solve turns _ s = some (none, s)
