-- ===== src/Ponw/Sat.antt =====
-- `SATInstance` and its `verify`.
pub mod Verify
use npchain.Base.{
  ℕ, ◌+◌, ◌-◌, ◌%◌, ◌^◌, Bool, true, false, not, List, [], ◌∷◌, length, get_or, leb, ◌==◌,
  if◌then◌else◌, ℤ, abs, is_negative,
}

pub record SatInstance : Type 0 where
  pub num_variables : ℕ
  pub num_clauses : ℕ
  pub k : ℕ
  pub clauses : List (List ℤ)

-- `static_cast<uint32_t>(std::abs(literal)) - 1`, with the wrap of uint32_t at literal 0.
unfoldable pub var_index : ℤ → ℕ
var_index literal = (abs literal + 2 ^ 32 - 1) % 2 ^ 32

unfoldable pub literal_value : List Bool → ℤ → Bool
unfolding var_index
literal_value assignment literal =
    let value = get_or assignment (var_index literal) false in
    if is_negative literal then not value else value

-- How the loop over one clause ends; `out_of_range` returns from `verify` at once.
pub data ClauseResult : Type 0 where
  satisfied unsatisfied out_of_range : ClauseResult

unfoldable pub check_clause : ℕ → List Bool → List ℤ → ClauseResult
check_clause n assignment [] = ClauseResult.unsatisfied
check_clause n assignment (literal ∷ rest) =
    let next = check_clause n assignment rest in
    if leb n (var_index literal)
    then ClauseResult.out_of_range
    else if literal_value assignment literal
    then ClauseResult.satisfied
    else next

abbrev is_satisfied : ClauseResult → Bool
is_satisfied ClauseResult.satisfied = true
is_satisfied _ = false

unfoldable pub check_clauses : ℕ → List Bool → List (List ℤ) → Bool
check_clauses n assignment [] = true
check_clauses n assignment (clause ∷ rest) =
    let next = check_clauses n assignment rest in
    if is_satisfied (check_clause n assignment clause) then next else false

unfoldable pub verify : SatInstance → List Bool → Bool
unfolding check_clauses check_clause literal_value
verify inst assignment =
    if length assignment == inst.num_variables
    then check_clauses inst.num_variables assignment inst.clauses
    else false
