-- ===== src/Ponw/SatGenerator.antt =====
-- `InstanceGenerator::generate_sat` of src/consensus/ponw_engine.cpp.
pub mod Planted
use npchain.Base.{
  ℕ, zero, suc, ◌+◌, ◌-◌, ◌%◌, ◌^◌, Bool, true, false, not, ◌||◌, Option, none, some, List, [], ◌∷◌,
  get_or, if◌then◌else◌, ℤ, pos, negsuc, Floats, ◌>>=◌,
}
use npchain.Crypto.Rng.{Rng, next_bounded, next_bool}
use npchain.Ponw.Problem.{ProblemType, difficulty_to_size}
use npchain.Ponw.Sat.{SatInstance}

-- The literal over variable `v + 1`.
abbrev pub literal_of : ℕ → Bool → ℤ
literal_of v negated = if negated then negsuc v else pos (suc v)

-- Whether the planted solution makes that literal true.
abbrev pub literal_holds : List Bool → ℕ → Bool → Bool
literal_holds planted v negated =
    let value = get_or planted v false in if negated then not value else value

abbrev pub max_attempts : ℕ
max_attempts = 10_000_000

module _ (fl : Floats) where
  open fl use {literal}

  unfoldable pub planted_solution : ℕ → Rng → List Bool × Rng
  planted_solution zero rng = ([], rng)
  planted_solution (suc n) rng =
      let (bit, rng1) = next_bool fl (literal 5 1) rng in
      let (bits, rng2) = planted_solution n rng1 in (bit ∷ bits, rng2)

-- `fuel` bounds each rejection loop of the generator of numbers.
module _ (fl : Floats) (fuel : ℕ) where
  open fl use {literal}

  -- `n` literals, and whether the planted solution satisfies one of them. A draw is below
  -- `num_vars`, a uint32_t, so the cast to uint32_t of the source changes nothing.
  unfoldable pub draw_clause : ℕ → ℕ → List Bool → Rng → Option (List ℤ × Bool × Rng)
  draw_clause zero num_vars planted rng = some ([], false, rng)
  draw_clause (suc n) num_vars planted rng = do
    (v, rng1) ← next_bounded fuel num_vars rng
    let (negated, rng2) = next_bool fl (literal 5 1) rng1
    (clause, satisfied, rng3) ← draw_clause n num_vars planted rng2
    some (literal_of v negated ∷ clause, literal_holds planted v negated || satisfied, rng3)

  -- The loop, with the attempts and the clauses that are left.
  unfoldable pub draw_clauses : ℕ → ℕ → ℕ → List Bool → Rng → Option (List (List ℤ) × Rng)
  draw_clauses zero left num_vars planted rng = some ([], rng)
  draw_clauses (suc attempts) zero num_vars planted rng = some ([], rng)
  draw_clauses (suc attempts) (suc left) num_vars planted rng = do
    (clause, satisfied, rng1) ← draw_clause 3 num_vars planted rng
    elim satisfied [
      | true ↦ draw_clauses attempts left num_vars planted rng1 >>= λ (clauses, rng2).
          some (clause ∷ clauses, rng2)
      | false ↦ draw_clauses attempts (suc left) num_vars planted rng1
    ]

  unfoldable pub generate_sat : Rng → ℕ → Option SatInstance
  generate_sat rng difficulty = do
    let (num_vars, num_clauses) = difficulty_to_size fl ProblemType.k_sat difficulty
    let (planted, rng1) = planted_solution fl num_vars rng
    (clauses, rng2) ← draw_clauses max_attempts num_clauses num_vars planted rng1
    some (record { num_variables = num_vars; num_clauses = num_clauses; k = 3; clauses = clauses })
