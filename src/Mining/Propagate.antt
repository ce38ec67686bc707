-- ===== src/Mining/Propagate.antt =====
-- `CDCLSolver::unit_propagate` of src/mining/sat_solver.cpp.
pub mod Ends
use npchain.Base.{
  ℕ, zero, suc, ◌+◌, ◌-◌, Bool, true, false, not, ◌&&◌, ◌||◌, Option, none, some, List, [], ◌∷◌,
  ◌++◌, length, get_or, set, drop, ltb, if◌then◌else◌, ℤ, pos, Floats, ◌==◌, abs, is_negative,
}
use npchain.Mining.State.{
  Clause, InternalState, neg, lit_index, swap_literals, lit_value, is_unassigned, assign,
}

pub data PropResult : Type 0 where
  ok conflict unsat : PropResult

-- What becomes of a clause in the list that watches it.
pub data Visit : Type 0 where
  kept moved failed : Visit

abbrev pub same_literal : ℤ → ℤ → Bool
same_literal a b = elim (is_negative a) [
  | true ↦ is_negative b && abs a == abs b
  | false ↦ not (is_negative b) && abs a == abs b
]

module _ (fl : Floats) where
  open fl use {Double, literal}

  abbrev pub empty_clause : Clause Double
  empty_clause = record { literals = []; learned = false; activity = literal 0 0 }

  abbrev pub clause_literals : InternalState Double → ℕ → List ℤ
  clause_literals s ci = (get_or s.clauses ci empty_clause).literals

  abbrev pub set_literals : InternalState Double → ℕ → List ℤ → InternalState Double
  set_literals s ci ls = record s {
    clauses = set s.clauses ci (record (get_or s.clauses ci empty_clause) { literals = ls });
  }

  abbrev pub watch : InternalState Double → ℤ → ℕ → InternalState Double
  watch s lit ci = record s {
    watches = set s.watches (lit_index lit) (get_or s.watches (lit_index lit) [] ++ (ci ∷ []));
  }

  -- The place of the first literal that is not false, the places counted from `k`.
  unfoldable pub find_watch : InternalState Double → ℕ → List ℤ → Option ℕ
  find_watch s k [] = none
  find_watch s k (lit ∷ lits) =
      let rest = find_watch s (k + 1) lits in
      if is_unassigned s lit || lit_value s lit then some k else rest

  -- The last literal that is not false: true, unassigned, or false and a conflict.
  unfoldable pub settle_first : InternalState Double → ℕ → ℤ → InternalState Double × Visit
  settle_first s ci first =
      if is_unassigned s first
      then (record (assign s first (some ci)) { propagations = s.propagations + 1 }, Visit.kept)
      else if not (lit_value s first)
      then (s, Visit.failed)
      else (s, Visit.kept)

  -- A clause of one literal.
  unfoldable pub visit_unit : InternalState Double → ℤ → InternalState Double × Visit
  visit_unit s lit =
      if not (lit_value s lit) && not (is_unassigned s lit)
      then (s, Visit.failed)
      else (s, Visit.kept)

  -- `lits` has `false_lit` in the second place.
  unfoldable pub visit_watched : InternalState Double → ℕ → List ℤ → InternalState Double × Visit
  visit_watched s ci lits =
      let first = get_or lits 0 (pos 0) in
      if not (is_unassigned s first) && lit_value s first
      then (set_literals s ci lits, Visit.kept)
      else elim (find_watch s 2 (drop 2 lits)) [
        | none ↦ settle_first (set_literals s ci lits) ci first
        | some k ↦ (
          watch (set_literals s ci (swap_literals lits 1 k)) (get_or lits k (pos 0)) ci,
          Visit.moved,
        )
      ]

  unfoldable pub visit : InternalState Double → ℤ → ℕ → InternalState Double × Visit
  visit s false_lit ci =
      let lits = clause_literals s ci in
      if ltb (length lits) 2
      then visit_unit s (get_or lits 0 (pos 0))
      else visit_watched s ci
          (if same_literal (get_or lits 0 (pos 0)) false_lit then swap_literals lits 0 1 else lits)

  -- The clauses that are left of a watch list. The result has the list that remains and whether
  -- there is a conflict. A clause that moves goes to the list of a literal that is not false, so
  -- not to the list that is walked.
  unfoldable pub visit_all :
      InternalState Double → ℤ → List ℕ → InternalState Double × List ℕ × Bool
  visit_all s false_lit [] = (s, [], false)
  visit_all s false_lit (ci ∷ rest) =
      let (s1, outcome) = visit s false_lit ci in
      let (s2, left, found_conflict) = visit_all s1 false_lit rest in
      elim outcome [
        | Visit.kept ↦ (s2, ci ∷ left, found_conflict)
        | Visit.moved ↦ (s2, left, found_conflict)
        | Visit.failed ↦ (s1, ci ∷ rest, true)
      ]

  abbrev pub visit_list : InternalState Double → ℤ → InternalState Double × Bool
  visit_list s false_lit =
      let (s1, left, found_conflict) =
        visit_all s false_lit (get_or s.watches (lit_index false_lit) []) in
      (record s1 { watches = set s1.watches (lit_index false_lit) left }, found_conflict)

  -- trail[i], counted from the bottom.
  abbrev pub trail_at : InternalState Double → ℕ → ℤ
  trail_at s i = get_or s.trail (length s.trail - 1 - i) (pos 0)

  unfoldable pub propagate_from :
      ℕ → ℕ → InternalState Double → Option (InternalState Double × PropResult)
  propagate_from zero trail_pos s = none
  propagate_from (suc fuel) trail_pos s = elim (ltb trail_pos (length s.trail)) [
    | false ↦ some (s, PropResult.ok)
    | true ↦
        let (s1, found_conflict) = visit_list s (neg (trail_at s trail_pos)) in
        elim found_conflict [
          | true ↦ some (s1, PropResult.conflict)
          | false ↦ propagate_from fuel (trail_pos + 1) s1
        ]
  ]

  unfoldable pub unit_propagate :
      ℕ → InternalState Double → Option (InternalState Double × PropResult)
  unit_propagate fuel s = propagate_from fuel (length s.trail - 1) s
