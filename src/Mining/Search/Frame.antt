-- ===== src/Mining/Search/Frame.antt =====
-- Only a conflict is counted as one.
use npchain.Base.{
  ℕ, zero, suc, ◌+◌, ◌-◌, ◌≡◌, ◌∙◌, ◌⊎◌, inl, inr, refl, ap, List, [], ◌∷◌, length, get_or, drop,
  ltb, ℤ, pos, Floats, Whenever, Bool-cases, Option-cases, Whenever-weaken, not, ◌&&◌,
}
use npchain.Ponw.Sat.{var_index}
use npchain.Mining.State.{
  InternalState, lit_index, lit_value, is_unassigned, level_of, assign, unassign, neg,
}
use npchain.Mining.Propagate.{
  Visit, find_watch, set_literals, settle_first, visit_unit, visit_watched, visit, visit_all,
  visit_list, trail_at, propagate_from, unit_propagate, clause_literals,
}
use npchain.Mining.Conflict.{
  at_most_level, pop_trail, backtrack, add_learned_clause, analyze_conflict,
}
use npchain.Mining.Search.{watch_first, load_clause, load_clauses, learn_from, restart}

Visit-cases : (v : Visit) → (v ≡ Visit.kept) ⊎ ((v ≡ Visit.moved) ⊎ (v ≡ Visit.failed))
Visit-cases Visit.kept = inl refl
Visit-cases Visit.moved = inr (inl refl)
Visit-cases Visit.failed = inr (inr refl)

module _ {Double : Type 0} where
  pub pop_trail-conflicts :
      (s : InternalState Double) (level : ℕ) (lits : List ℤ)
      → (pop_trail s level lits).conflicts ≡ s.conflicts
  unfolding pop_trail unassign
  pop_trail-conflicts s level [] = refl
  pop_trail-conflicts s level (lit ∷ lits) =
      elim (Bool-cases (at_most_level (level_of s (var_index lit)) level)) [
        | inl e ↦ rw e refl
        | inr e ↦ rw e (pop_trail-conflicts (unassign s lit) level lits)
      ]

module _ (fl : Floats) where
  open fl use {Double}

  add_learned_clause-conflicts :
      (s : InternalState Double) (c : List ℤ) → (add_learned_clause fl s c).conflicts ≡ s.conflicts
  unfolding add_learned_clause assign
  add_learned_clause-conflicts s [] = refl
  add_learned_clause-conflicts s (a ∷ []) = refl
  add_learned_clause-conflicts s (a ∷ b ∷ c) = refl

  pub learn_from-conflicts :
      (s : InternalState Double) → (learn_from fl s).conflicts ≡ s.conflicts + 1
  unfolding learn_from analyze_conflict backtrack
  learn_from-conflicts s = add_learned_clause-conflicts _ _ ∙ pop_trail-conflicts _ _ _

  settle_first-conflicts :
      (s : InternalState Double) (ci : ℕ) (lit : ℤ)
      → (settle_first fl s ci lit).0.conflicts ≡ s.conflicts
  unfolding settle_first assign
  settle_first-conflicts s ci lit = elim (Bool-cases (is_unassigned s lit)) [
    | inl e ↦ rw e refl
    | inr e ↦ rw e (elim (Bool-cases (lit_value s lit)) [ inl f ↦ rw f refl | inr f ↦ rw f refl ])
  ]

  visit_unit-same : (s : InternalState Double) (lit : ℤ) → (visit_unit fl s lit).0 ≡ s
  unfolding visit_unit
  visit_unit-same s lit = elim (Bool-cases (not (lit_value s lit) && not (is_unassigned s lit))) [
    | inl e ↦ rw e refl
    | inr e ↦ rw e refl
  ]

  visit_watched-conflicts :
      (s : InternalState Double) (ci : ℕ) (lits : List ℤ)
      → (visit_watched fl s ci lits).0.conflicts ≡ s.conflicts
  unfolding visit_watched
  visit_watched-conflicts s ci lits =
      elim (Bool-cases
        (not (is_unassigned s (get_or lits 0 (pos 0))) && lit_value s (get_or lits 0 (pos 0)))) [
          | inl e ↦ rw e refl
          | inr e ↦ rw e (elim (Option-cases (find_watch fl s 2 (drop 2 lits))) [
            | inl f ↦
                rw f (settle_first-conflicts (set_literals fl s ci lits) ci (get_or lits 0 (pos 0)))
            | inr (k, f) ↦ rw f refl
          ])
        ]

  visit-conflicts :
      (s : InternalState Double) (lit : ℤ) (ci : ℕ) → (visit fl s lit ci).0.conflicts ≡ s.conflicts
  unfolding visit
  visit-conflicts s lit ci = elim (Bool-cases (ltb (length (clause_literals fl s ci)) 2)) [
    | inl e ↦
        rw e
          (ap (λ t. t.conflicts) (visit_unit-same s (get_or (clause_literals fl s ci) 0 (pos 0))))
    | inr e ↦ rw e (visit_watched-conflicts s ci _)
  ]

  visit_all-conflicts :
      (s : InternalState Double) (lit : ℤ) (list : List ℕ)
      → (visit_all fl s lit list).0.conflicts ≡ s.conflicts
  unfolding visit_all
  visit_all-conflicts s lit [] = refl
  visit_all-conflicts s lit (ci ∷ rest) =
      let first = visit-conflicts s lit ci in
      let all = visit_all-conflicts (visit fl s lit ci).0 lit rest ∙ first in
      elim (Visit-cases (visit fl s lit ci).1) [
        | inl e ↦ rw (visit_all, e) all
        | inr (inl e) ↦ rw (visit_all, e) all
        | inr (inr e) ↦ rw (visit_all, e) first
      ]

  propagate_from-conflicts :
      (fuel i : ℕ) (s : InternalState Double)
      → Whenever (propagate_from fl fuel i s) (λ r. r.0.conflicts ≡ s.conflicts)
  unfolding propagate_from
  propagate_from-conflicts zero i s = tt
  propagate_from-conflicts (suc fuel) i s =
      let lit = neg (trail_at fl s i) in
      let same = visit_all-conflicts s lit (get_or s.watches (lit_index lit) []) in
      elim (Bool-cases (ltb i (length s.trail))) [
        | inr e ↦ rw (propagate_from, e) refl
        | inl e ↦
            rw (propagate_from, e)
              (elim (Bool-cases (visit_list fl s lit).1) [
                | inl f ↦ rw f same
                | inr f ↦ rw f (
                    Whenever-weaken (propagate_from fl fuel (i + 1) (visit_list fl s lit).0)
                      (λ r. r.0.conflicts ≡ (visit_list fl s lit).0.conflicts) _
                      (propagate_from-conflicts fuel (i + 1) (visit_list fl s lit).0)
                      λ r h. h ∙ same)
              ])
      ]

  pub unit_propagate-conflicts :
      (fuel : ℕ) (s : InternalState Double)
      → Whenever (unit_propagate fl fuel s) (λ r. r.0.conflicts ≡ s.conflicts)
  unfolding unit_propagate
  unit_propagate-conflicts fuel s = propagate_from-conflicts fuel (length s.trail - 1) s

  pub restart-conflicts : (s : InternalState Double) → (restart fl s).conflicts ≡ s.conflicts
  unfolding restart backtrack
  restart-conflicts s = pop_trail-conflicts s 0 s.trail

  pub load_clauses-conflicts :
      (s : InternalState Double) (cs : List (List ℤ))
      → (load_clauses fl s cs).conflicts ≡ s.conflicts
  unfolding load_clauses watch_first
  load_clauses-conflicts s [] = refl
  load_clauses-conflicts s ([] ∷ cs) = load_clauses-conflicts (load_clause fl s []) cs
  load_clauses-conflicts s ((a ∷ []) ∷ cs) = load_clauses-conflicts (load_clause fl s (a ∷ [])) cs
  load_clauses-conflicts s ((a ∷ b ∷ c) ∷ cs) =
      load_clauses-conflicts (load_clause fl s (a ∷ b ∷ c)) cs
