-- ===== src/Mining/State.antt =====
-- `CDCLSolver::InternalState` of src/mining/sat_solver.cpp. The literals it is given are not 0 and
-- name variables of the instance: an access out of range, which the source does not check, reads
-- a default here and writes nothing.
use npchain.Base.{
  ℕ, zero, suc, ◌+◌, ◌*◌, ◌%◌, ◌^◌, Bool, true, false, not, Option, none, some, List, ◌∷◌, get_or,
  set, if◌then◌else◌, ℤ, pos, negsuc, is_negative,
}
use npchain.Ponw.Sat.{var_index}

pub data VarState : Type 0 where
  unassigned is_true is_false : VarState

pub record Clause (Double : Type 0) : Type 0 where
  pub literals : List ℤ
  pub learned : Bool
  pub activity : Double

-- The two stacks `trail` and `trail_lim` have their top first. A decision level or an antecedent of
-- -1 is `none`.
pub record InternalState (Double : Type 0) : Type 0 where
  pub num_vars : ℕ
  pub assignment : List VarState
  pub decision_level : List (Option ℕ)
  pub antecedent : List (Option ℕ)
  pub phase_cache : List Bool
  pub trail : List ℤ
  pub trail_lim : List ℕ
  pub current_level : ℕ
  pub clauses : List (Clause Double)
  pub learned_clauses : List (Clause Double)
  pub watches : List (List ℕ)
  pub var_activity : List Double
  pub var_activity_inc : Double
  pub var_decay : Double
  pub conflicts : ℕ
  pub propagations : ℕ
  pub decisions : ℕ
  pub restarts : ℕ

abbrev pub neg : ℤ → ℤ
neg (pos zero) = pos 0
neg (pos (suc n)) = negsuc n
neg (negsuc n) = pos (suc n)

abbrev pub lit_index : ℤ → ℕ
lit_index lit =
    if is_negative lit then (2 * var_index lit + 1) % 2 ^ 32 else 2 * var_index lit % 2 ^ 32

abbrev pub is_true_state : VarState → Bool
is_true_state VarState.is_true = true
is_true_state _ = false

abbrev pub is_unassigned_state : VarState → Bool
is_unassigned_state VarState.unassigned = true
is_unassigned_state _ = false

-- A clause with two literals exchanged.
abbrev pub swap_literals : List ℤ → ℕ → ℕ → List ℤ
swap_literals ls i j = set (set ls i (get_or ls j (pos 0))) j (get_or ls i (pos 0))

module _ {Double : Type 0} where
  abbrev pub state_of : InternalState Double → ℕ → VarState
  state_of s var = get_or s.assignment var VarState.unassigned

  abbrev pub level_of : InternalState Double → ℕ → Option ℕ
  level_of s var = get_or s.decision_level var none

  unfoldable pub lit_value : InternalState Double → ℤ → Bool
  lit_value s lit = elim (state_of s (var_index lit)) [
    | VarState.unassigned ↦ false
    | VarState.is_true ↦ not (is_negative lit)
    | VarState.is_false ↦ is_negative lit
  ]

  abbrev pub is_unassigned : InternalState Double → ℤ → Bool
  is_unassigned s lit = is_unassigned_state (state_of s (var_index lit))

  unfoldable pub assign : InternalState Double → ℤ → Option ℕ → InternalState Double
  assign s lit ante_clause = record s {
    assignment =
        set s.assignment (var_index lit)
          (if is_negative lit then VarState.is_false else VarState.is_true);
    decision_level = set s.decision_level (var_index lit) (some s.current_level);
    antecedent = set s.antecedent (var_index lit) ante_clause;
    trail = lit ∷ s.trail;
  }

  unfoldable pub unassign : InternalState Double → ℤ → InternalState Double
  unassign s lit = record s {
    phase_cache = set s.phase_cache (var_index lit) (is_true_state (state_of s (var_index lit)));
    assignment = set s.assignment (var_index lit) VarState.unassigned;
    decision_level = set s.decision_level (var_index lit) none;
    antecedent = set s.antecedent (var_index lit) none;
  }
