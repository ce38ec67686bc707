-- ===== src/Mining/Search/Bound.antt =====
-- How many conflicts a search that ends can have met.
use npchain.Base.{
  ℕ, zero, suc, ◌-◌, ◌*◌, ◌%◌, ◌^◌, ◌≤◌, ◌<◌, ◌≡◌, ◌∙◌, ◌⊎◌, inl, inr, refl, ap, Bool, true, false,
  none, List, length, ltb, leb, ◌==◌, Floats, Whenever, Whenever-bind, Bool-cases, Whenever-weaken,
  arith,
}
use npchain.Ponw.Sat.{SatInstance}
use npchain.Mining.State.{Clause, InternalState, assign}
use npchain.Mining.Propagate.{unit_propagate}
use npchain.Mining.Conflict.{Config, reduce_clause_db}
use npchain.Mining.Search.{
  luby, initial_state, learn_from, after_conflict, solve_sat_instance, reduce_if_large,
}
use npchain.Mining.Search.Frame.{
  unit_propagate-conflicts, learn_from-conflicts, restart-conflicts, load_clauses-conflicts,
}
use npchain.Mining.Search.Rule.{search_rule}

-- From 2 on the loop takes 0 off its number for ever.
luby-none : (fuel i : ℕ) → 2 ≤ i → luby fuel i 1 ≡ none
unfolding luby
luby-none zero i h = refl
luby-none (suc fuel) i h =
    let no : (i == 1) ≡ false = ground arith in
    let yes : leb 1 i ≡ true = ground arith in
    let same : i - 0 ≡ i = omega arith in rw (luby, no, yes, same) (luby-none fuel i h)

luby_one : (fuel : ℕ) → Whenever (luby fuel 1 1) (λ factor. factor ≡ 1)
unfolding luby
luby_one zero = tt
luby_one (suc fuel) = refl

times_one : (n : ℕ) → n < 2 ^ 32 → n * 1 % 2 ^ 64 ≡ n
times_one n small = omega arith

module _ (fl : Floats) (cfg : Config fl.Double)
    (sort : List (Clause fl.Double) → List (Clause fl.Double)) (is_stopped : ℕ → Bool)
    (fuel : ℕ) where
  -- Before the first restart, or after it with as many conflicts as it takes.
  abbrev Paced : InternalState fl.Double → ℕ → ℕ → Type 0
  Paced s restart_count next_restart =
      (next_restart ≡ cfg.restart_base)
      × (((restart_count ≡ 0) × (s.conflicts < cfg.restart_base))
          ⊎ ((restart_count ≡ 1) × (s.conflicts ≡ cfg.restart_base)))

  Paced-at_most :
      (s : InternalState fl.Double) (count next : ℕ)
      → Paced s count next
      → s.conflicts ≤ cfg.restart_base
  Paced-at_most s count next paced = ground arith

  Paced-same :
      (s t : InternalState fl.Double) (count next : ℕ)
      → t.conflicts ≡ s.conflicts
      → Paced s count next
      → Paced t count next
  Paced-same s t count next same paced = ground arith

  reduce_if_large-conflicts :
      (s : InternalState fl.Double)
      → (reduce_if_large fl cfg sort is_stopped fuel s).conflicts ≡ s.conflicts
  unfolding reduce_clause_db
  reduce_if_large-conflicts s =
      elim (Bool-cases (ltb cfg.clause_db_limit (length s.learned_clauses))) [
        | inl e ↦ rw e refl
        | inr e ↦ rw e refl
      ]

  after_conflict-Paced :
      (s : InternalState fl.Double) (restart_count next_restart : ℕ)
      → cfg.restart_base < 2 ^ 32
      → Paced s restart_count next_restart
      → Whenever
          (after_conflict fl cfg sort is_stopped fuel s restart_count next_restart)
          (λ (t, count, next). Paced t count next)
  unfolding after_conflict
  after_conflict-Paced s restart_count next_restart small (e, inl (none_yet, few)) =
      let more = learn_from-conflicts fl s in
      elim (Bool-cases (leb next_restart (learn_from fl s).conflicts)) [
        | inr f ↦
            let left : (learn_from fl s).conflicts < cfg.restart_base = ground arith in
            rw (after_conflict, f)
              (e, inl (none_yet, omega (arith, left, reduce_if_large-conflicts (learn_from fl s))))
        | inl f ↦
            let full : (learn_from fl s).conflicts ≡ cfg.restart_base = ground arith in
            rw (after_conflict, f, none_yet)
              (Whenever-bind (luby fuel 1 1) _ (λ factor. factor ≡ 1) _ (luby_one fuel)
                λ factor one. (
                  ap (λ f. cfg.restart_base * f % 2 ^ 64) one ∙ times_one cfg.restart_base small,
                  inr (
                    refl,
                    reduce_if_large-conflicts _ ∙ (restart-conflicts fl (learn_from fl s) ∙ full),
                  ),
                ))
      ]
  after_conflict-Paced s restart_count next_restart small (e, inr (one, full)) =
      let more = learn_from-conflicts fl s in
      let due : leb next_restart (learn_from fl s).conflicts ≡ true = ground arith in
      rw (after_conflict, due, one, luby-none fuel 2 (omega arith)) tt

  -- For a restart base of at least 1, in uint32_t: a search that ends has met at most as many
  -- conflicts as the restart base. With one more the second restart is due, and the
  -- computation of its Luby number goes on for ever.
  pub solve_sat_instance_bound :
      (inst : SatInstance) (turns : ℕ)
      → 1 ≤ cfg.restart_base
      → cfg.restart_base < 2 ^ 32
      → Whenever
          (solve_sat_instance fl cfg sort is_stopped fuel turns inst)
          (λ r. r.1.conflicts ≤ cfg.restart_base)
  unfolding solve_sat_instance
  solve_sat_instance_bound inst turns some_base small =
      let fresh =
        load_clauses-conflicts fl (initial_state fl cfg sort is_stopped fuel inst.num_variables)
          inst.clauses in
      search_rule fl cfg sort is_stopped fuel inst Paced (λ r. r.1.conflicts ≤ cfg.restart_base)
        (λ s count next paced.
          Whenever-weaken (unit_propagate fl fuel s) (λ r. r.0.conflicts ≡ s.conflicts) _
            (unit_propagate-conflicts fl fuel s) λ r same. Paced-same s r.0 count next same paced)
        (λ s count next. after_conflict-Paced s count next small)
        (λ s count next v paced. ((λ e. unfold assign in paced), (λ e. unfold assign in paced)))
        (λ s count next paced. (Paced-at_most s count next paced, Paced-at_most s count next paced))
        turns 0 _ 0 cfg.restart_base (refl, inl (refl, omega (arith, fresh)))
