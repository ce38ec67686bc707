-- ===== src/Mining/Search/Rule.antt =====
-- What holds of a search that ends.
use npchain.Base.{
  ℕ, zero, suc, ◌+◌, ◌≡◌, ◌⊎◌, inl, inr, refl, Bool, Option, none, List, ◌==◌, ℤ, pos, negsuc,
  Floats, Whenever, Whenever-bind, Bool-cases,
}
use npchain.Ponw.Engine.{Witness}
use npchain.Ponw.Sat.{SatInstance}
use npchain.Mining.State.{Clause, InternalState}
use npchain.Mining.Propagate.{PropResult, unit_propagate}
use npchain.Mining.Conflict.{Config, pick_decision_variable}
use npchain.Mining.Search.{pack_solution, after_conflict, decide, search}

ℤ-cases : (z : ℤ) → (z ≡ pos 0) ⊎ (((n : ℕ) × (z ≡ pos (suc n))) ⊎ ((n : ℕ) × (z ≡ negsuc n)))
ℤ-cases (pos zero) = inl refl
ℤ-cases (pos (suc n)) = inr (inl (n, refl))
ℤ-cases (negsuc n) = inr (inr (n, refl))

PropResult-cases :
    (r : PropResult) → (r ≡ PropResult.unsat) ⊎ ((r ≡ PropResult.conflict) ⊎ (r ≡ PropResult.ok))
PropResult-cases PropResult.unsat = inl refl
PropResult-cases PropResult.conflict = inr (inl refl)
PropResult-cases PropResult.ok = inr (inr refl)

module _ (fl : Floats) (cfg : Config fl.Double)
    (sort : List (Clause fl.Double) → List (Clause fl.Double)) (is_stopped : ℕ → Bool) (fuel : ℕ)
    (inst : SatInstance) (I : InternalState fl.Double → ℕ → ℕ → Type 0)
    (Q : Option Witness × InternalState fl.Double → Type 0) where
  -- An invariant that each step of a turn keeps holds where the search ends.
  pub search_rule :
      ((s : InternalState fl.Double) (count next : ℕ)
        → I s count next
        → Whenever (unit_propagate fl fuel s) (λ r. I r.0 count next))
      → ((s : InternalState fl.Double) (count next : ℕ)
          → I s count next
          → Whenever
              (after_conflict fl cfg sort is_stopped fuel s count next)
              (λ (t, c, n). I t c n))
      → ((s : InternalState fl.Double) (count next : ℕ) (v : ℕ)
          → I s count next
          → ((pick_decision_variable fl cfg s ≡ pos (suc v))
              → I (decide fl cfg sort is_stopped fuel s (pos (suc v))) count next)
            × ((pick_decision_variable fl cfg s ≡ negsuc v)
                → I (decide fl cfg sort is_stopped fuel s (negsuc v)) count next))
      → ((s : InternalState fl.Double) (count next : ℕ)
          → I s count next
          → Q (none, s) × Q (pack_solution fl cfg sort is_stopped fuel inst s, s))
      → (left turn : ℕ) (s : InternalState fl.Double) (count next : ℕ) → I s count next
      → Whenever (search fl cfg sort is_stopped fuel left inst turn s count next) Q
  unfolding search
  search_rule propagated resolved decided ended zero turn s count next i = tt
  search_rule propagated resolved decided ended (suc left) turn s count next i =
      let again = search_rule propagated resolved decided ended left (turn + 1) in
      elim (Bool-cases (is_stopped turn)) [
        | inl e ↦ rw (search, e) (ended s count next i).0
        | inr e ↦
            rw (search, e)
              (Whenever-bind (unit_propagate fl fuel s) _ (λ r. I r.0 count next) _
                (propagated s count next i)
                λ (s1, result) i1. elim (PropResult-cases result) [
                  | inl e1 ↦ rw e1 (ended s1 count next i1).0
                  | inr (inl e1) ↦ rw e1 (elim (Bool-cases (s1.current_level == 0)) [
                    | inl f ↦ rw f (ended s1 count next i1).0
                    | inr f ↦ rw f (
                        Whenever-bind (after_conflict fl cfg sort is_stopped fuel s1 count next) _
                          (λ (t, c, n). I t c n) _ (resolved s1 count next i1)
                          λ (t, c, n). again t c n)
                  ])
                  | inr (inr e1) ↦ rw e1 (elim (ℤ-cases (pick_decision_variable fl cfg s1)) [
                    | inl f ↦ rw f (ended s1 count next i1).1
                    | inr (inl (v, f)) ↦
                        rw f (again _ count next ((decided s1 count next v i1).0 f))
                    | inr (inr (v, f)) ↦
                        rw f (again _ count next ((decided s1 count next v i1).1 f))
                  ])
                ])
      ]
