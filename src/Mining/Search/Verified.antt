-- ===== src/Mining/Search/Verified.antt =====
-- A search returns only witnesses that the instance accepts.
use npchain.Base.{
  ℕ, ◌≡◌, refl, Bool, true, Bool-cases, Option, none, some, inl, inr, List, map, Floats, Whenever,
}
use npchain.Ponw.Engine.{Witness}
use npchain.Ponw.Problem.{ProblemType}
use npchain.Ponw.Sat.{SatInstance, verify}
use npchain.Mining.State.{Clause, InternalState, is_true_state}
use npchain.Mining.Conflict.{Config}
use npchain.Mining.Propagate.{unit_propagate}
use npchain.Mining.Search.{byte_of, pack_solution, solve_sat_instance, after_conflict}
use npchain.Mining.Search.Rule.{search_rule}

-- One byte for each variable of an assignment that the instance accepts.
abbrev pub IsPacked : SatInstance → Witness → Type 0
IsPacked inst w =
    (a : List Bool) × (verify inst a ≡ true)
    × (w.type ≡ ProblemType.k_sat)
    × (w.solution_data ≡ map byte_of a)

pub Whenever_always {ℓ} :
    {A : Type ℓ} (m : Option A) (P : A → Type 0) → ((a : A) → P a) → Whenever m P
Whenever_always none P h = tt
Whenever_always (some a) P h = h a

module _ (fl : Floats) (cfg : Config fl.Double)
    (sort : List (Clause fl.Double) → List (Clause fl.Double)) (is_stopped : ℕ → Bool) (fuel : ℕ)
    (inst : SatInstance) where
  pack_solution-IsPacked :
      (s : InternalState fl.Double)
      → Whenever (pack_solution fl cfg sort is_stopped fuel inst s) (IsPacked inst)
  unfolding pack_solution
  pack_solution-IsPacked s = elim (Bool-cases (verify inst (map is_true_state s.assignment))) [
    | inl e ↦ rw (pack_solution, e) (map is_true_state s.assignment, e, refl, refl)
    | inr e ↦ rw (pack_solution, e) tt
  ]

  -- Whatever the flag and the clock say, however std::sort orders equals and however many turns
  -- are taken: a witness that the search ends with holds one byte for each variable of an
  -- assignment that the instance accepts.
  pub solve_sat_instance-IsPacked :
      (turns : ℕ)
      → Whenever
          (solve_sat_instance fl cfg sort is_stopped fuel turns inst)
          (λ r. Whenever r.0 (IsPacked inst))
  unfolding solve_sat_instance
  solve_sat_instance-IsPacked turns =
      search_rule fl cfg sort is_stopped fuel inst (λ s c n. Unit {0})
        (λ r. Whenever r.0 (IsPacked inst))
        (λ s c n i. Whenever_always (unit_propagate fl fuel s) _ λ r. tt)
        (λ s c n i. Whenever_always (after_conflict fl cfg sort is_stopped fuel s c n) _ λ r. tt)
        (λ s c n v i. ((λ e. tt), (λ e. tt))) (λ s c n i. (tt, pack_solution-IsPacked s)) turns 0 _
        0 cfg.restart_base tt
