-- ===== src/Mining/Conflict.antt =====
-- `pick_decision_variable`, `analyze_conflict`, `backtrack`, `add_learned_clause` and
-- `reduce_clause_db` of src/mining/sat_solver.cpp.
use npchain.Base.{
  ℕ, zero, suc, ◌+◌, ◌-◌, ◌/◌, Bool, true, false, not, ◌&&◌, Option, none, some, List, [], ◌∷◌,
  ◌++◌, length, get_or, set, take, drop, replicate, ltb, leb, max, ◌==◌, if◌then◌else◌, ℤ, pos,
  negsuc, Floats,
}
use npchain.Ponw.Sat.{var_index}
use npchain.Mining.State.{
  Clause, InternalState, is_true_state, is_unassigned_state, state_of, level_of, assign, unassign,
}
use npchain.Mining.Propagate.{watch}

pub record Config (Double : Type 0) : Type 0 where
  pub vsids_decay : Double
  pub restart_base : ℕ
  pub restart_mult : Double
  pub clause_db_limit : ℕ
  pub phase_saving : Bool

-- A level at most `level`; the level -1 is one.
abbrev pub at_most_level : Option ℕ → ℕ → Bool
at_most_level none level = true
at_most_level (some l) level = leb l level

abbrev pub is_level : Option ℕ → ℕ → Bool
is_level none level = false
is_level (some l) level = l == level

-- The largest level below the current one. A variable that is seen has one.
abbrev pub raise_level : Option ℕ → ℕ → ℕ → ℕ
raise_level none current_level level = level
raise_level (some l) current_level level = if ltb l current_level then max level l else level

abbrev pub drop_top : ℕ → List ℕ → List ℕ
drop_top level lims = drop (length lims - level) lims

module _ {Double : Type 0} where
  -- The literals that are left on the trail, the top first.
  unfoldable pub pop_trail : InternalState Double → ℕ → List ℤ → InternalState Double
  pop_trail s level [] = record s { trail = [] }
  pop_trail s level (lit ∷ rest) =
      let next = pop_trail (unassign s lit) level rest in
      if at_most_level (level_of s (var_index lit)) level
      then record s { trail = lit ∷ rest }
      else next

  unfoldable pub backtrack : InternalState Double → ℕ → InternalState Double
  backtrack s level = record (pop_trail s level s.trail) {
    trail_lim = drop_top level s.trail_lim;
    current_level = level;
  }

  -- The literal of a variable that the assignment makes false.
  abbrev pub opposite : InternalState Double → ℕ → ℤ
  opposite s var = if is_true_state (state_of s var) then negsuc var else pos (var + 1)

  -- The variables from `var` on, the seen ones: the learned literals and the level to go back to.
  unfoldable pub learn : InternalState Double → List Bool → ℕ → ℕ → ℕ → List ℤ × ℕ
  learn s seen zero var level = ([], level)
  learn s seen (suc left) var level =
      let skipped = learn s seen left (var + 1) level in
      let lower = raise_level (level_of s var) s.current_level level in
      let (lits, back_to) = learn s seen left (var + 1) lower in
      if get_or seen var false then (opposite s var ∷ lits, back_to) else skipped

  unfoldable pub learn_all : InternalState Double → ℕ → ℕ → List ℤ
  learn_all s zero var = []
  learn_all s (suc left) var =
      let rest = learn_all s left (var + 1) in
      if is_level (level_of s var) s.current_level then opposite s var ∷ rest else rest

  -- The learned clause, or else one of the whole current level.
  unfoldable pub or_fallback : InternalState Double → ℕ → List ℤ → List ℤ × ℕ
  or_fallback s level [] = (learn_all s s.num_vars 0, s.current_level - 1)
  or_fallback s level (lit ∷ lits) = (lit ∷ lits, level)

module _ (fl : Floats) where
  open fl use {Double, literal, sub, add, div, less}

  -- The variables from `i` on; the best one so far is counted from 1.
  unfoldable pub pick_loop : InternalState Double → ℕ → ℕ → ℕ → Double → ℕ
  pick_loop s zero i best_var best_activity = best_var
  pick_loop s (suc left) i best_var best_activity =
      let activity = get_or s.var_activity i (literal 0 0) in
      let taken = pick_loop s left (i + 1) (i + 1) activity in
      let passed = pick_loop s left (i + 1) best_var best_activity in
      if is_unassigned_state (state_of s i) && less best_activity activity then taken else passed

  -- The literal 0 is returned when every variable is assigned.
  unfoldable pub pick_decision_variable : Config Double → InternalState Double → ℤ
  pick_decision_variable cfg s =
      elim (pick_loop s s.num_vars 0 0 (sub (literal 0 0) (literal 1 0))) [
        | zero ↦ pos 0
        | suc v ↦ if cfg.phase_saving && get_or s.phase_cache v false then pos (v + 1) else negsuc v
      ]

  -- The trail from the top: the variables of the current level are seen and gain activity.
  unfoldable pub mark_seen :
      InternalState Double → List ℤ → List Bool → List Double → List Bool × List Double
  mark_seen s [] seen activity = (seen, activity)
  mark_seen s (lit ∷ rest) seen activity =
      let var = var_index lit in
      let bumped = add (get_or activity var (literal 0 0)) s.var_activity_inc in
      let marked = mark_seen s rest (set seen var true) (set activity var bumped) in
      let next = mark_seen s rest seen activity in
      if not (get_or seen var false) && is_level (level_of s var) s.current_level
      then marked
      else next

  -- The state, the learned clause and the level to go back to.
  unfoldable pub analyze_conflict : InternalState Double → InternalState Double × List ℤ × ℕ
  analyze_conflict s =
      let (seen, activity) = mark_seen s s.trail (replicate s.num_vars false) s.var_activity in
      let s1 = record s {
        var_activity = activity;
        var_activity_inc = div s.var_activity_inc s.var_decay;
      } in
      let (learned, level) = learn s seen s.num_vars 0 0 in
      let (clause, back_to) = or_fallback s level learned in (s1, clause, back_to)

  abbrev pub push_clause : InternalState Double → List ℤ → InternalState Double
  push_clause s clause =
      let c : Clause Double = record {
        literals = clause;
        learned = true;
        activity = literal 1 0;
      } in
      record s { clauses = s.clauses ++ (c ∷ []); learned_clauses = s.learned_clauses ++ (c ∷ []) }

  unfoldable pub add_learned_clause : InternalState Double → List ℤ → InternalState Double
  add_learned_clause s [] = push_clause s []
  add_learned_clause s (lit ∷ []) =
      assign (watch fl (push_clause s (lit ∷ [])) lit (length s.clauses)) lit
        (some (length s.clauses))
  add_learned_clause s (a ∷ b ∷ lits) =
      watch fl (watch fl (push_clause s (a ∷ b ∷ lits)) a (length s.clauses)) b (length s.clauses)

  -- `sort` is std::sort by falling activity, which leaves open the order of equals.
  unfoldable pub reduce_clause_db :
      (List (Clause Double) → List (Clause Double)) → InternalState Double → InternalState Double
  reduce_clause_db sort s = record s {
    learned_clauses = take (length s.learned_clauses / 2) (sort s.learned_clauses);
  }
