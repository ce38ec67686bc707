-- ===== src/Testnet/Instance/Range.antt =====
-- Every literal of a generated instance names one of its variables, whatever numbers are drawn.
use npchain.Base.{
  ℕ, zero, suc, ◌^◌, ◌<◌, Bool, true, false, List, ℤ, Floats, Whenever, Whenever-bind, All, arith,
  Bool-cases, inl, inr,
}
use npchain.Crypto.Hash.{Hash256}
use npchain.Crypto.Rng.{Rng, new_rng, next_bounded, next_bool}
use npchain.Crypto.Rng.Draws.{next_bounded_below}
use npchain.Ponw.Problem.{scaled}
use npchain.Ponw.Sat.{SatInstance, var_index}
use npchain.Ponw.SatGenerator.{
  literal_of, max_attempts, planted_solution, draw_clause, draw_clauses,
}
use npchain.Testnet.Instance.{generate_instance}

-- A literal whose variable is one of `n`.
abbrev pub InRange : ℕ → ℤ → Type 0
InRange n literal = var_index literal < n

literal_of-InRange :
    (n v : ℕ) (negated : Bool) → n < 2 ^ 31 → v < n → InRange n (literal_of v negated)
unfolding var_index
literal_of-InRange n v true small h = omega arith
literal_of-InRange n v false small h = omega arith

module _ (fl : Floats) (fuel n : ℕ) (planted : List Bool) (small : n < 2 ^ 31)
    (some_vars : 0 < n) where
  draw_clause-InRange :
      (k : ℕ) (rng : Rng)
      → Whenever (draw_clause fl fuel k n planted rng) (λ d. All (InRange n) d.0)
  unfolding draw_clause
  draw_clause-InRange zero rng = tt
  draw_clause-InRange (suc k) rng =
      Whenever-bind (next_bounded fuel n rng) _ (λ d. d.0 < n) (λ d. All (InRange n) d.0)
        (next_bounded_below fuel n rng some_vars)
        λ (v, rng1) h.
          let (negated, rng2) = next_bool fl (fl.literal 5 1) rng1 in
          Whenever-bind (draw_clause fl fuel k n planted rng2) _ (λ d. All (InRange n) d.0)
            (λ d. All (InRange n) d.0) (draw_clause-InRange k rng2)
            λ (clause, satisfied, rng3) d. (literal_of-InRange n v negated small h, d)

  draw_clauses-InRange :
      (attempts left : ℕ) (rng : Rng)
      → Whenever (draw_clauses fl fuel attempts left n planted rng) (λ d. All (All (InRange n)) d.0)
  unfolding draw_clauses
  draw_clauses-InRange zero left rng = tt
  draw_clauses-InRange (suc attempts) zero rng = tt
  draw_clauses-InRange (suc attempts) (suc left) rng =
      Whenever-bind (draw_clause fl fuel 3 n planted rng) _ (λ d. All (InRange n) d.0)
        (λ d. All (All (InRange n)) d.0) (draw_clause-InRange 3 rng)
        λ (clause, satisfied, rng1) range. elim (Bool-cases satisfied) [
          | inl e ↦ rw e (
              Whenever-bind (draw_clauses fl fuel attempts left n planted rng1) _
                (λ d. All (All (InRange n)) d.0) (λ d. All (All (InRange n)) d.0)
                (draw_clauses-InRange attempts left rng1) λ (clauses, rng2) rest. (range, rest))
          | inr e ↦ rw e (draw_clauses-InRange attempts (suc left) rng1)
        ]

-- What `generate_instance` promises the solver.
abbrev pub IsPosed : SatInstance → Type 0
IsPosed inst = All (All (InRange inst.num_variables)) inst.clauses

pub generate_instance-IsPosed :
    (fl : Floats) (fuel : ℕ) (prev_hash : Hash256) (difficulty : ℕ)
    → 0 < scaled fl difficulty 10 25
    → scaled fl difficulty 10 25 < 2 ^ 31
    → Whenever (generate_instance fl fuel prev_hash difficulty) IsPosed
unfolding generate_instance
generate_instance-IsPosed fl fuel prev_hash difficulty some_vars small =
    let nv = scaled fl difficulty 10 25 in
    let (planted, rng) = planted_solution fl nv (new_rng prev_hash) in
    Whenever-bind (draw_clauses fl fuel max_attempts _ nv planted rng) _
      (λ d. All (All (InRange nv)) d.0) IsPosed
      (draw_clauses-InRange fl fuel nv planted small some_vars max_attempts _ rng)
      λ (clauses, rng') range. range
